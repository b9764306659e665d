-- ===== src/Msg/Server/Sessions.antt =====
-- src/msg/msg_server.cpp, lines 120-174 and 200-225: the sessions as a map from the indices of connections to the
-- connections that have them.
use commutil.Common.{
  ℕ, zero, suc, ◌<◌, ◌≡◌, refl, sym, ap, ◌∙◌, inl, inr, true, false, Option, none, some, List, [],
  ◌∷◌, ◌++◌, arith, length, get_elem?, set, add64, ◌==◌, ==_iff, if◌then◌else◌, Bool-cases,
  length-set, get_elem?-set_self, get_elem?-set_ne, get_elem?-total,
}
use mathlib.Core.Path.{subst}
use commutil.Err.{
  ErrorCode, e_ok, e_session_not_found, e_session_stale, Out, ok, err, fault, code_of,
}
use commutil.Transport.DataServer.{ConnectionDetails}
use commutil.Msg.Server.{
  MsgSession, MsgServer, MsgSessionFactory, default_session_factory, add_session, on_connect,
  on_disconnect, get_session,
}

pub data SessionEvent : Type 0 where
  connected : ConnectionDetails → ℕ → SessionEvent
  disconnected : ConnectionDetails → SessionEvent

abbrev pub details : SessionEvent → ConnectionDetails
details (connected c status) = c
details (disconnected c) = c

abbrev pub Hears : Type 0 → Type 0
Hears L = Option (MsgSession → ConnectionDetails → L → L)

-- There is memory for every session.
abbrev pub plenty : MsgSessionFactory
plenty = default_session_factory (λ id. true)

unfoldable pub serve :
    {L : Type 0} → Hears L → SessionEvent → L × MsgServer → Out (L × MsgServer) (Unit {0})
serve listener (connected c status) (user, s) = elim (on_connect plenty c status s) [
  | ok accepted t ↦ ok tt (user, t)
  | err e t ↦ err e (user, t)
  | fault ↦ fault
]
serve listener (disconnected c) (user, s) = on_disconnect listener c (user, s)

unfoldable pub serve_all :
    {L : Type 0} → Hears L → List SessionEvent → L × MsgServer → Out (L × MsgServer) (Unit {0})
serve_all listener [] s = ok tt s
serve_all listener (e ∷ es) s = elim (serve listener e s) [
  | ok _ t ↦ serve_all listener es t
  | err code t ↦ err code t
  | fault ↦ fault
]

-- The connection that owns an entry: the first that connected with success since the entry was last given up.
unfoldable pub takes : SessionEvent → Option ℕ → Option ℕ
takes (connected c zero) none = some c.details_id
takes (connected c zero) (some owner) = some owner
takes (connected c (suc status)) owner = owner
takes (disconnected c) owner = none

unfoldable pub owner_after : ℕ → List SessionEvent → Option ℕ → Option ℕ
owner_after index [] owner = owner
owner_after index (e ∷ es) owner =
    owner_after index es (if (details e).details_index == index then takes e owner else owner)

abbrev pub owner_of : Option MsgSession → Option ℕ
owner_of none = none
owner_of (some session) = some session.connection_id

-- The code that a lookup is answered with.
abbrev pub answer : Option ℕ → ℕ → ErrorCode
answer none id = e_session_not_found
answer (some owner) id = if owner == id then e_ok else e_session_stale

abbrev pub AllInside : ℕ → List SessionEvent → Type 0
AllInside n [] = Unit
AllInside n (e ∷ es) = ((details e).details_index < n) × AllInside n es

abbrev owner_in : Option (Option MsgSession) → Option ℕ
owner_in none = none
owner_in (some entry) = owner_of entry

-- Entries with these owners, so many of them.
abbrev pub Owned : ℕ → (ℕ → Option ℕ) → List (Option MsgSession) → Type 0
Owned n owner entries =
    (length entries ≡ n)
    × ((i : ℕ) (entry : Option MsgSession)
        → get_elem? entries i ≡ some entry
        → owner_of entry ≡ owner i)

-- The owners after an event, each entry on its own.
abbrev step : SessionEvent → (ℕ → Option ℕ) → ℕ → Option ℕ
step e owner i = if (details e).details_index == i then takes e (owner i) else owner i

module _ (e : SessionEvent) (n : ℕ) (owner : ℕ → Option ℕ) (entries : List (Option MsgSession))
    (inside : (details e).details_index < n) (owned : Owned n owner entries) where
  abbrev j : ℕ
  j = (details e).details_index

  at_event :
      (i : ℕ) (next : Option ℕ) → next ≡ takes e (owner j) → (j ≡ i → next ≡ takes e (owner i))
  at_event i next h same = h ∙ ap (λ k. takes e (owner k)) same

  apart : (i : ℕ) → (j == i) ≡ true → (j == i) ≡ false → ⊥
  apart i h g = cc

  -- The entry of the event gets the owner that the event asks for.
  replaced :
      (entry : Option MsgSession)
      → owner_of entry ≡ takes e (owner j)
      → Owned n (step e owner) (set entries j entry)
  replaced entry becomes = (length-set entries j entry ∙ owned.0, each)
    where
      each :
          (i : ℕ) (found : Option MsgSession)
          → get_elem? (set entries j entry) i ≡ some found
          → owner_of found ≡ step e owner i
      each i found at = elim (Bool-cases (j == i)) [
        | inl same ↦ rw same (
            ap owner_in (
              sym at
              ∙ ap (get_elem? (set entries j entry)) (sym ((==_iff j i).0 same))
              ∙ get_elem?-set_self entries j entry (omega (arith, inside, owned.0)))
            ∙ at_event i (owner_of entry) becomes ((==_iff j i).0 same))
        | inr differs ↦ rw differs (
            owned.1 i found (
              sym (get_elem?-set_ne entries j i entry (λ h. apart i ((==_iff j i).1 h) differs))
              ∙ at))
      ]

  -- An event that leaves the owner of its entry changes nothing.
  kept : owner j ≡ takes e (owner j) → Owned n (step e owner) entries
  kept stays = (owned.0, each)
    where
      each :
          (i : ℕ) (found : Option MsgSession)
          → get_elem? entries i ≡ some found
          → owner_of found ≡ step e owner i
      each i found at = elim (Bool-cases (j == i)) [
        | inl same ↦ rw same (
            owned.1 i found at
            ∙ subst (λ k. owner k ≡ takes e (owner k)) ((==_iff j i).0 same) stays)
        | inr differs ↦ rw (differs) (owned.1 i found at)
      ]

-- The session that a connection is given.
abbrev session_for : ConnectionDetails → MsgServer → MsgSession
session_for c s = record {
  session_id = s.next_session_id;
  connection_id = c.details_id;
  connection_index = c.details_index;
}

module _ {L : Type 0} (listener : Hears L) where
  -- What an event leads to, with these owners afterwards.
  abbrev Served : ℕ → (ℕ → Option ℕ) → Out (L × MsgServer) (Unit {0}) → Type 0
  Served n owner out =
      (later : L) × (t : MsgServer) × (out ≡ ok tt (later, t)) × Owned n owner t.sessions

  connect_lem :
      (c : ConnectionDetails) (n : ℕ) (owner : ℕ → Option ℕ) (user : L) (s : MsgServer)
      → c.details_index < n
      → Owned n owner s.sessions
      → (entry : Option MsgSession) → get_elem? s.sessions c.details_index ≡ some entry
      → Served n (step (connected c zero) owner) (serve listener (connected c zero) (user, s))
  unfolding serve on_connect add_session default_session_factory takes
  connect_lem c n owner user s inside owned none at = (
    user,
    record s {
      next_session_id = add64 s.next_session_id 1;
      sessions = set s.sessions c.details_index (some (session_for c s));
    },
    rw (at, serve, add_session, default_session_factory),
    replaced (connected c zero) n owner s.sessions inside owned (some (session_for c s))
        (ap (takes (connected c zero)) (owned.1 c.details_index none at)),
  )
  connect_lem c n owner user s inside owned (some session) at = (
    user,
    s,
    rw (at, serve),
    kept (connected c zero) n owner s.sessions inside owned (
        sym (owned.1 c.details_index (some session) at)
        ∙ ap (takes (connected c zero)) (owned.1 c.details_index (some session) at)),
  )

  disconnect_lem :
      (c : ConnectionDetails) (n : ℕ) (owner : ℕ → Option ℕ) (user : L) (s : MsgServer)
      → c.details_index < n
      → Owned n owner s.sessions
      → (entry : Option MsgSession) → get_elem? s.sessions c.details_index ≡ some entry
      → Served n (step (disconnected c) owner) (serve listener (disconnected c) (user, s))
  unfolding serve on_disconnect takes
  disconnect_lem c n owner user s inside owned none at = (
    user,
    s,
    rw (at, on_disconnect),
    kept (disconnected c) n owner s.sessions inside owned (sym (owned.1 c.details_index none at)),
  )
  disconnect_lem c n owner user s inside owned (some session) at = (
    (elim listener [ none ↦ user | some hears ↦ hears session c user ]),
    record s {
      sessions = set s.sessions c.details_index none;
      deleted = s.deleted ++ session ∷ [];
    },
    rw (at, on_disconnect),
    replaced (disconnected c) n owner s.sessions inside owned none refl,
  )

  serve_lem :
      (e : SessionEvent) (n : ℕ) (owner : ℕ → Option ℕ) (user : L) (s : MsgServer)
      → (details e).details_index < n
      → Owned n owner s.sessions
      → Served n (step e owner) (serve listener e (user, s))
  unfolding serve on_connect takes
  serve_lem (connected c zero) n owner user s inside owned =
      let (entry, at) =
        get_elem?-total s.sessions c.details_index (omega (arith, inside, owned.0)) in
      connect_lem c n owner user s inside owned entry at
  serve_lem (connected c (suc status)) n owner user s inside owned =
      (user, s, refl, kept (connected c (suc status)) n owner s.sessions inside owned refl)
  serve_lem (disconnected c) n owner user s inside owned =
      let (entry, at) =
        get_elem?-total s.sessions c.details_index (omega (arith, inside, owned.0)) in
      disconnect_lem c n owner user s inside owned entry at

  serve_all_lem :
      (es : List SessionEvent) (n : ℕ) (owner : ℕ → Option ℕ) (user : L) (s : MsgServer)
      → AllInside n es
      → Owned n owner s.sessions
      → Served n (λ i. owner_after i es (owner i)) (serve_all listener es (user, s))
  unfolding serve_all owner_after
  serve_all_lem [] n owner user s inside owned = (user, s, refl, owned)
  serve_all_lem (e ∷ es) n owner user s inside owned =
      let (heard, t, run, next) = serve_lem e n owner user s inside.0 owned in
      let (later, u, runs, last) = serve_all_lem es n (step e owner) heard t inside.1 next in
      (later, u, rw (run, serve_all) runs, last)

  looked_up :
      (c : ConnectionDetails) (t : MsgServer) (entry : Option MsgSession)
      → get_elem? t.sessions c.details_index ≡ some entry
      → code_of e_ok (get_session c t) ≡ answer (owner_of entry) c.details_id
  unfolding get_session
  looked_up c t none at = rw (at, code_of)
  looked_up c t (some session) at = elim (Bool-cases (session.connection_id == c.details_id)) [
    | inl same ↦ rw (at, code_of, same)
    | inr differs ↦ rw (at, code_of, differs)
  ]

  -- On any sequence of connects and disconnects whose indices are in the array, where there is memory
  -- for every session, the server runs without an error, and afterwards a lookup of connection details
  -- with an index in the array is answered by the owner of that entry alone: E_SESSION_NOT_FOUND if it
  -- has none, E_OK if it is the connection of the details, and else E_SESSION_STALE. The owner is
  -- the first connection that came with status zero since the last disconnect for the index.
  pub get_session-serve_all :
      (es : List SessionEvent) (n : ℕ) (owner : ℕ → Option ℕ) (user : L) (s : MsgServer)
      → AllInside n es
      → Owned n owner s.sessions
      → (later : L) × (t : MsgServer) × (serve_all listener es (user, s) ≡ ok tt (later, t))
        × ((c : ConnectionDetails)
            → c.details_index < n
            → code_of e_ok (get_session c t)
              ≡ answer (owner_after c.details_index es (owner c.details_index)) c.details_id)
  get_session-serve_all es n owner user s inside owned =
      let (later, t, run, owns) = serve_all_lem es n owner user s inside owned in
      (
        later,
        t,
        run,
        λ c h.
            let (entry, at) =
              get_elem?-total t.sessions c.details_index (omega (arith, h, owns.0)) in
            looked_up c t entry at
            ∙ ap (λ o. answer o c.details_id) (owns.1 c.details_index entry at),
      )
