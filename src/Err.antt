-- ===== src/Err.antt =====
-- inc/comm_util_err.h: the error codes; and the outcome of a call that changes an
-- object of type S: `ok` for E_OK, `err` for any other code, and `fault` for a run that has no
-- defined behaviour (such as a read through a null pointer).
use commutil.Common.{◌≡◌}

pub data ErrorCode : Type 0 where
  e_ok e_nomem e_invalid_argument e_invalid_state e_resource_limit e_io_canceled : ErrorCode
  e_concurrent_modification e_system_failure e_not_found e_internal_error e_eof : ErrorCode
  e_already_exists e_inprogress e_net_error e_end_of_stream e_protocol_error : ErrorCode
  e_server_error e_not_implemented e_invalid_connection e_session_not_found : ErrorCode
  e_session_stale e_aborted e_data_corrupt e_transport_error e_timed_out e_last_error : ErrorCode

pub data Out {ℓ κ} (S : Type ℓ) (A : Type κ) : Type (ℓ ⊔ κ) where
  ok : A → S → Out S A
  err : ErrorCode → S → Out S A
  fault : Out S A

infixl 5 ◌>>=◌ ◌>>◌
abbrev pub ◌>>=◌ {ℓ κ μ} :
    {S : Type ℓ} {A : Type κ} {B : Type μ} → (S → Out S A) → (A → S → Out S B) → S → Out S B
◌>>=◌ m f s = elim (m s) [ ok a t ↦ f a t | err e t ↦ err e t | fault ↦ fault ]

abbrev pub ◌>>◌ {ℓ κ μ} :
    {S : Type ℓ} {A : Type κ} {B : Type μ} → (S → Out S A) → (S → Out S B) → S → Out S B
m >> k = m >>= λ _. k

abbrev pub return {ℓ κ} : {S : Type ℓ} {A : Type κ} → A → S → Out S A
return a s = ok a s

-- The code a caller sees.
abbrev pub code_of {ℓ κ} : {S : Type ℓ} {A : Type κ} → ErrorCode → Out S A → ErrorCode
code_of d (ok a s) = e_ok
code_of d (err e s) = e
code_of d fault = d

-- The first step of a chain returned E_OK.
pub >>=-of_ok {ℓ κ μ} :
    {S : Type ℓ} {A : Type κ} {B : Type μ} (m : S → Out S A) (f : A → S → Out S B) (s : S) {a : A}
    {t : S}
    → m s ≡ ok a t
    → (m >>= f) s ≡ f a t
>>=-of_ok m f s e = rw (e, ◌>>=◌)
