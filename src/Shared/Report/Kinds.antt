-- ===== src/Shared/Report/Kinds.antt =====
-- shared/src/report.rs, `calculate_error_stats`: the counts by kind, and the order of the newest.
use npt.Prelude.{
  ℕ, ◌+◌, ◌-◌, ◌^◌, ◌≤◌, ◌<◌, ◌≡◌, refl, ap, sym, ◌∙◌, List, [], ◌∷◌, length, count, filter, Bool,
  true, false, ltb, ◌==◌, arith, Bool-cases, inl, inr, if◌then◌else◌,
}
use npt.Prelude.Words.{add64}
use npt.Prelude.Sums.{sum_by}
use npt.Prelude.Table.{Table, lookup, lookup-insert}
use npt.Shared.Protocol.{ConnectionType, tcp, udp, quic, ErrorDetail, ErrorType}
use npt.Shared.Metrics.{ConnectionMetrics, is_tcp, is_udp, is_quic, same_type}
use npt.Shared.Report.Extremes.{unwrap_or}
use npt.Shared.Report.Recent.{type_name, count_type, count_types, insert_newest, newest_first}

-- The number of errors of a kind in the map, which has no entry for a kind that never was.
abbrev pub entry : ErrorType → Table ℕ → ℕ
entry kind types = unwrap_or 0 (lookup (type_name kind) types)

abbrev pub is_kind : ErrorType → ErrorDetail → Bool
is_kind kind d = type_name d.error_type == type_name kind

entry-count_type :
    (place : ℕ → ℕ) (kind : ErrorType) (d : ErrorDetail) (types : Table ℕ)
    → entry kind types < 2 ^ 64 - 1
    → entry kind (count_type place d types) ≡ (if is_kind kind d then 1 else 0) + entry kind types
entry-count_type place kind d types h =
    let name = type_name d.error_type in
    let found =
      lookup-insert (place name) name (type_name kind) (add64 (unwrap_or 0 (lookup name types)) 1)
        types in
    elim (Bool-cases (name == type_name kind)) [
      | inl e ↦ let same : name ≡ type_name kind = ground arith in rw (found, e, same) (omega arith)
      | inr e ↦ rw (found, e) (omega arith)
    ]

bit-le : (b : Bool) → (if b then 1 else 0) ≤ 1
bit-le true = omega arith
bit-le false = omega arith

pub entry-count_types :
    (place : ℕ → ℕ) (kind : ErrorType) (ds : List ErrorDetail) (types : Table ℕ)
    → entry kind types + length ds < 2 ^ 64
    → entry kind (count_types place ds types) ≡ entry kind types + count (is_kind kind) ds
entry-count_types place kind [] types h = omega arith
entry-count_types place kind (d ∷ ds) types h = omega (
  arith,
  entry-count_types place kind ds (count_type place d types),
  entry-count_type place kind d types,
  bit-le (is_kind kind d),
)

-- No error of the list is newer than `t`.
abbrev pub NoNewer : ℕ → List ErrorDetail → Type 0
NoNewer t [] = Unit
NoNewer t (d ∷ ds) = (d.timestamp ≤ t) × NoNewer t ds

abbrev pub NewestFirst : List ErrorDetail → Type 0
NewestFirst [] = Unit
NewestFirst (d ∷ ds) = NoNewer d.timestamp ds × NewestFirst ds

NoNewer-le : (t u : ℕ) (ds : List ErrorDetail) → t ≤ u → NoNewer t ds → NoNewer u ds
NoNewer-le t u [] h n = tt
NoNewer-le t u (d ∷ ds) h n = (omega (arith, n.0), NoNewer-le t u ds h n.1)

NoNewer-insert :
    (t : ℕ) (e : ErrorDetail) (ds : List ErrorDetail)
    → e.timestamp ≤ t
    → NoNewer t ds
    → NoNewer t (insert_newest e ds)
NoNewer-insert t e [] h n = (h, tt)
NoNewer-insert t e (d ∷ ds) h n = elim (Bool-cases (ltb e.timestamp d.timestamp)) [
  | inl older ↦ rw older (n.0, NoNewer-insert t e ds h n.1)
  | inr newer ↦ rw newer (h, n)
]

insert_newest-NewestFirst :
    (e : ErrorDetail) (ds : List ErrorDetail) → NewestFirst ds → NewestFirst (insert_newest e ds)
insert_newest-NewestFirst e [] s = (tt, tt)
insert_newest-NewestFirst e (d ∷ ds) s = elim (Bool-cases (ltb e.timestamp d.timestamp)) [
  | inl older ↦
      let less : e.timestamp ≤ d.timestamp = ground arith in
      rw older (NoNewer-insert d.timestamp e ds less s.0, insert_newest-NewestFirst e ds s.1)
  | inr newer ↦
      let more : d.timestamp ≤ e.timestamp = ground arith in
      rw newer ((more, NoNewer-le d.timestamp e.timestamp ds more s.0), s)
]

pub newest_first-NewestFirst : (ds : List ErrorDetail) → NewestFirst (newest_first ds)
newest_first-NewestFirst [] = tt
newest_first-NewestFirst (d ∷ ds) =
    insert_newest-NewestFirst d (newest_first ds) (newest_first-NewestFirst ds)

count-insert_newest :
    (p : ErrorDetail → Bool) (e : ErrorDetail) (ds : List ErrorDetail)
    → count p (insert_newest e ds) ≡ count p (e ∷ ds)
count-insert_newest p e [] = refl
count-insert_newest p e (d ∷ ds) = elim (Bool-cases (ltb e.timestamp d.timestamp)) [
  | inl older ↦ rw older (omega (arith, count-insert_newest p e ds))
  | inr newer ↦ rw newer refl
]

pub count-newest_first :
    (p : ErrorDetail → Bool) (ds : List ErrorDetail) → count p (newest_first ds) ≡ count p ds
count-newest_first p [] = refl
count-newest_first p (d ∷ ds) =
    count-insert_newest p d (newest_first ds)
    ∙ ap (λ n. (if p d then 1 else 0) + n) (count-newest_first p ds)

count_always : (ds : List ErrorDetail) → count (λ _. true) ds ≡ length ds
count_always [] = refl
count_always (d ∷ ds) = omega (arith, count_always ds)

pub length-newest_first : (ds : List ErrorDetail) → length (newest_first ds) ≡ length ds
length-newest_first ds =
    sym (count_always (newest_first ds)) ∙ count-newest_first (λ _. true) ds ∙ count_always ds

-- The errors of the connections of a type.
abbrev pub errors_of : (ConnectionMetrics → Bool) → List ConnectionMetrics → ℕ
errors_of p connections = sum_by (λ c. c.errors) (filter p connections)

by_type :
    (c : ConnectionMetrics) (t : ConnectionType) (x y z : ℕ)
    → (if same_type tcp t then c.errors + x else x)
        + (if same_type udp t then c.errors + y else y)
        + (if same_type quic t then c.errors + z else z)
      ≡ c.errors + (x + y + z)
by_type c tcp x y z = omega arith
by_type c udp x y z = omega arith
by_type c quic x y z = omega arith

sum-if :
    (b : Bool) (c : ConnectionMetrics) (cs : List ConnectionMetrics)
    → sum_by (λ d. d.errors) (if b then c ∷ cs else cs)
      ≡ (if b then c.errors + sum_by (λ d. d.errors) cs else sum_by (λ d. d.errors) cs)
sum-if true c cs = refl
sum-if false c cs = refl

-- Every connection is of one of the three types.
pub errors-by_type :
    (cs : List ConnectionMetrics)
    → sum_by (λ c. c.errors) cs ≡ errors_of is_tcp cs + errors_of is_udp cs + errors_of is_quic cs
errors-by_type [] = omega arith
errors-by_type (c ∷ cs) = omega (
  arith,
  errors-by_type cs,
  sum-if (is_tcp c) c (filter is_tcp cs),
  sum-if (is_udp c) c (filter is_udp cs),
  sum-if (is_quic c) c (filter is_quic cs),
  by_type c c.connection_type (errors_of is_tcp cs) (errors_of is_udp cs) (errors_of is_quic cs),
)
