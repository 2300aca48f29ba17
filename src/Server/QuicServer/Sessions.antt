-- ===== src/Server/QuicServer/Sessions.antt =====
-- server/src/quic_server.rs: each session in the map has its own open connection in the metrics.
use npt.Prelude.{
  ℕ, zero, suc, ◌≡◌, ◌≢◌, refl, ap, sym, ◌∙◌, [], ◌∷◌, none, some, length, false, ◌==◌, Bool-cases,
  inl, inr,
}
use npt.Prelude.Table.{Table, lookup, has_key, modify, insert_at, remove, lookup-absent}
use npt.Shared.Protocol.{quic}
use npt.Shared.Metrics.{ConnectionMetrics}
use npt.Shared.Metrics.Activity.{IsOpen}
use npt.Server.QuicServer.{QuicSession}

-- No session of the map has the identifier.
abbrev pub NoSession : ℕ → Table QuicSession → Type 0
NoSession id [] = Unit
NoSession id ((_, s) ∷ sessions) = (s.id ≢ id) × NoSession id sessions

-- Every session has a connection in the metrics that is open, and no two have the same.
abbrev pub Own : Table QuicSession → Table ConnectionMetrics → Type 0
Own [] m = Unit
Own ((_, s) ∷ sessions) m = IsOpen s.id quic m × NoSession s.id sessions × Own sessions m

-- A change of the metrics that leaves open what the sessions have.
pub Own-kept :
    (sessions : Table QuicSession) (m m' : Table ConnectionMetrics)
    → ((id : ℕ) → IsOpen id quic m → IsOpen id quic m')
    → Own sessions m
    → Own sessions m'
Own-kept [] m m' keep o = tt
Own-kept ((_, s) ∷ sessions) m m' keep (a, b, c) = (keep s.id a, b, Own-kept sessions m m' keep c)

-- A connection that is changed or removed leaves alone those of the sessions without its identifier.
pub Own-others :
    (id : ℕ) (sessions : Table QuicSession) (m m' : Table ConnectionMetrics)
    → ((j : ℕ) → j ≢ id → IsOpen j quic m → IsOpen j quic m')
    → NoSession id sessions
    → Own sessions m
    → Own sessions m'
Own-others id [] m m' keep n o = tt
Own-others id ((_, s) ∷ sessions) m m' keep (n, rest) (a, b, c) =
    (keep s.id n a, b, Own-others id sessions m m' keep rest c)

-- An identifier that is new to the metrics is that of no session.
pub Own-NoSession :
    (id : ℕ) (sessions : Table QuicSession) (m : Table ConnectionMetrics)
    → has_key id m ≡ false
    → Own sessions m
    → NoSession id sessions
Own-NoSession id [] m h o = tt
Own-NoSession id ((_, s) ∷ sessions) m h ((c, found, _, _), _, rest) = (
  λ same.
      let gone : none ≡ some c =
        sym (lookup-absent id m h) ∙ ap (λ i. lookup i m) (sym same) ∙ found in
      cc gone,
  Own-NoSession id sessions m h rest,
)

NoSession-insert_at :
    (place addr id : ℕ) (s : QuicSession) (sessions : Table QuicSession)
    → s.id ≢ id
    → NoSession id sessions
    → NoSession id (insert_at place (addr, s) sessions)
NoSession-insert_at zero addr id s sessions d n = (d, n)
NoSession-insert_at (suc place) addr id s [] d n = (d, n)
NoSession-insert_at (suc place) addr id s (_ ∷ sessions) d (e, n) =
    (e, NoSession-insert_at place addr id s sessions d n)

pub Own-insert_at :
    (place addr : ℕ) (s : QuicSession) (sessions : Table QuicSession) (m : Table ConnectionMetrics)
    → IsOpen s.id quic m
    → NoSession s.id sessions
    → Own sessions m
    → Own (insert_at place (addr, s) sessions) m
Own-insert_at zero addr s sessions m a n o = (a, n, o)
Own-insert_at (suc place) addr s [] m a n o = (a, n, o)
Own-insert_at (suc place) addr s ((_, t) ∷ sessions) m a (d, n) (b, c, o) = (
  b,
  NoSession-insert_at place addr t.id s sessions (λ e. d (sym e)) c,
  Own-insert_at place addr s sessions m a n o,
)

NoSession-modify :
    (addr id : ℕ) (f : QuicSession → QuicSession) (sessions : Table QuicSession)
    → ((s : QuicSession) → s.id ≢ id → (f s).id ≢ id)
    → NoSession id sessions
    → NoSession id (modify addr f sessions)
NoSession-modify addr id f [] k n = tt
NoSession-modify addr id f ((j, s) ∷ sessions) k (d, n) = elim (Bool-cases (j == addr)) [
  | inl e ↦ rw e (k s d, n)
  | inr e ↦ rw e (d, NoSession-modify addr id f sessions k n)
]

-- The counters of a session are changed, and its identifier stays.
pub Own-modify :
    (addr : ℕ) (f : QuicSession → QuicSession) (sessions : Table QuicSession)
    (m : Table ConnectionMetrics)
    → ((s : QuicSession) → (f s).id ≡ s.id)
    → Own sessions m
    → Own (modify addr f sessions) m
Own-modify addr f [] m k o = tt
Own-modify addr f ((j, s) ∷ sessions) m k (a, b, c) = elim (Bool-cases (j == addr)) [
  | inl e ↦ rw (e, k s) (a, b, c)
  | inr e ↦ rw e (
    a,
    NoSession-modify addr s.id f sessions (λ t d. rw (k t) d) b,
    Own-modify addr f sessions m k c,
  )
]

-- A session is replaced by one with a new connection.
pub Own-replace :
    (addr : ℕ) (s : QuicSession) (sessions : Table QuicSession) (m : Table ConnectionMetrics)
    → IsOpen s.id quic m
    → NoSession s.id sessions
    → Own sessions m
    → Own (modify addr (λ _. s) sessions) m
Own-replace addr s [] m a n o = tt
Own-replace addr s ((j, t) ∷ sessions) m a (d, n) (b, c, o) = elim (Bool-cases (j == addr)) [
  | inl e ↦ rw e (a, n, o)
  | inr e ↦ rw e (
    b,
    NoSession-modify addr t.id (λ _. s) sessions (λ u k p. d (sym p)) c,
    Own-replace addr s sessions m a n o,
  )
]

NoSession-remove :
    (addr id : ℕ) (sessions : Table QuicSession)
    → NoSession id sessions
    → NoSession id (remove addr sessions)
NoSession-remove addr id [] n = tt
NoSession-remove addr id ((j, s) ∷ sessions) (d, n) = elim (Bool-cases (j == addr)) [
  | inl e ↦ rw e n
  | inr e ↦ rw e (d, NoSession-remove addr id sessions n)
]

-- A session that is removed was there, and no other has its connection.
pub Own-remove :
    (addr : ℕ) (sessions : Table QuicSession) (m : Table ConnectionMetrics) {s : QuicSession}
    → lookup addr sessions ≡ some s
    → Own sessions m
    → IsOpen s.id quic m
      × NoSession s.id (remove addr sessions)
      × Own (remove addr sessions) m
      × (suc (length (remove addr sessions)) ≡ length sessions)
Own-remove addr [] m h o = cc
Own-remove addr ((j, t) ∷ sessions) m {s} h (a, b, c) = elim (Bool-cases (j == addr)) [
  | inl e ↦
      let same : some t ≡ some s = rw e at h in
      let equal : t ≡ s = cc in rw (e, ← equal) (a, b, c, refl)
  | inr e ↦
      let (p, q, r, n) = Own-remove addr sessions m (rw e at h) c in
      let apart = different t s sessions addr b (rw e at h) in
      rw e (p, (apart, q), (a, NoSession-remove addr t.id sessions b, r), ap suc n)
]
  where
    different :
        (t s : QuicSession) (sessions : Table QuicSession) (addr : ℕ)
        → NoSession t.id sessions
        → lookup addr sessions ≡ some s
        → t.id ≢ s.id
    different t s [] addr n h = cc
    different t s ((j, u) ∷ sessions) addr (d, n) h = elim (Bool-cases (j == addr)) [
      | inl e ↦
          let same : some u ≡ some s = rw e at h in
          let equal : u ≡ s = cc in rw (← equal) (λ p. d (sym p))
      | inr e ↦ different t s sessions addr n (rw e at h)
    ]
