-- ===== src/Prelude/Bytes.antt =====
-- Little-endian bytes (`to_le_bytes`, `from_le_bytes`) for every width, and exact reads of a list.
use native.Mathlib.Nat.{pow-suc}
use Prim.Native.Nat.{ℕ, zero, suc, ◌+◌, ◌*◌, ◌/◌, ◌%◌, ◌^◌, ◌<◌}
use mathlib.Core.Path.{◌≡◌, refl, ap, ap₂, ◌∙◌}
use mathlib.Core.Option.{Option, none, some}
use mathlib.Core.List.{List, [], ◌∷◌, ◌++◌}
use native.Mathlib.Omega.{arith}
use npt.Prelude.Lists.{length, take, drop}

abbrev pub le_bytes : ℕ → ℕ → List ℕ
le_bytes zero n = []
le_bytes (suc w) n = (n % 256) ∷ le_bytes w (n / 256)

abbrev pub from_le_bytes : List ℕ → ℕ
from_le_bytes [] = 0
from_le_bytes (b ∷ bs) = b + 256 * from_le_bytes bs

abbrev pub AllBytes : List ℕ → Type 0
AllBytes [] = Unit
AllBytes (b ∷ bs) = (b < 256) × AllBytes bs

pub length-le_bytes : (w n : ℕ) → length (le_bytes w n) ≡ w
length-le_bytes zero n = refl
length-le_bytes (suc w) n = ap suc (length-le_bytes w (n / 256))

pub from_le_bytes-le_bytes : (w n : ℕ) → n < 256 ^ w → from_le_bytes (le_bytes w n) ≡ n
from_le_bytes-le_bytes zero n h = omega arith
from_le_bytes-le_bytes (suc w) n h =
    omega (arith, from_le_bytes-le_bytes w (n / 256) (omega (arith, pow-suc 256 w)))

pub le_bytes-from_le_bytes :
    (w : ℕ) (bs : List ℕ) → length bs ≡ w → AllBytes bs → le_bytes w (from_le_bytes bs) ≡ bs
le_bytes-from_le_bytes zero [] h a = refl
le_bytes-from_le_bytes zero (b ∷ bs) h a = absurd (omega arith)
le_bytes-from_le_bytes (suc w) [] h a = absurd (omega arith)
le_bytes-from_le_bytes (suc w) (b ∷ bs) h a =
    ap₂ ◌∷◌ (omega arith)
      (ap (le_bytes w) (omega arith) ∙ le_bytes-from_le_bytes w bs (omega arith) a.1)

pub from_le_bytes-lt :
    (w : ℕ) (bs : List ℕ) → length bs ≡ w → AllBytes bs → from_le_bytes bs < 256 ^ w
from_le_bytes-lt zero [] h a = omega arith
from_le_bytes-lt zero (b ∷ bs) h a = absurd (omega arith)
from_le_bytes-lt (suc w) [] h a = absurd (omega arith)
from_le_bytes-lt (suc w) (b ∷ bs) h a =
    omega (arith, from_le_bytes-lt w bs (omega arith) a.1, pow-suc 256 w)

pub AllBytes-take : (n : ℕ) (bs : List ℕ) → AllBytes bs → AllBytes (take n bs)
AllBytes-take zero bs a = tt
AllBytes-take (suc n) [] a = tt
AllBytes-take (suc n) (b ∷ bs) a = (a.0, AllBytes-take n bs a.1)

pub AllBytes-drop : (n : ℕ) (bs : List ℕ) → AllBytes bs → AllBytes (drop n bs)
AllBytes-drop zero bs a = a
AllBytes-drop (suc n) [] a = tt
AllBytes-drop (suc n) (b ∷ bs) a = AllBytes-drop n bs a.1

pub AllBytes-append : (xs ys : List ℕ) → AllBytes (xs ++ ys) → AllBytes xs × AllBytes ys
AllBytes-append [] ys a = (tt, a)
AllBytes-append (x ∷ xs) ys a = let (b, c) = AllBytes-append xs ys a.1 in ((a.0, b), c)

-- The first `n` items and the rest, if there are as many: what `read_exact` takes from a stream.
abbrev cons_first : ℕ → Option (List ℕ × List ℕ) → Option (List ℕ × List ℕ)
cons_first x none = none
cons_first x (some (xs, rest)) = some (x ∷ xs, rest)

abbrev pub split_exact : ℕ → List ℕ → Option (List ℕ × List ℕ)
split_exact zero xs = some ([], xs)
split_exact (suc n) [] = none
split_exact (suc n) (x ∷ xs) = cons_first x (split_exact n xs)

pub split_exact-append :
    (n : ℕ) (xs ys : List ℕ) → length xs ≡ n → split_exact n (xs ++ ys) ≡ some (xs, ys)
split_exact-append zero [] ys h = refl
split_exact-append zero (x ∷ xs) ys h = absurd (omega arith)
split_exact-append (suc n) [] ys h = absurd (omega arith)
split_exact-append (suc n) (x ∷ xs) ys h =
    ap (cons_first x) (split_exact-append n xs ys (omega arith))

pub split_exact_short : (n : ℕ) (xs : List ℕ) → length xs < n → split_exact n xs ≡ none
split_exact_short zero xs h = elim h [ ]
split_exact_short (suc n) [] h = refl
split_exact_short (suc n) (x ∷ xs) h = ap (cons_first x) (split_exact_short n xs (omega arith))

-- What a read takes and what it leaves make up what there was.
pub split_exact_parts :
    (n : ℕ) (xs : List ℕ) {ys zs : List ℕ}
    → split_exact n xs ≡ some (ys, zs)
    → (xs ≡ ys ++ zs) × (length ys ≡ n)
split_exact_parts zero xs h = ground arith
split_exact_parts (suc n) [] h = cc
split_exact_parts (suc n) (x ∷ xs) h = step (split_exact n xs) (λ ys zs. split_exact_parts n xs) h
  where
    step :
        (o : Option (List ℕ × List ℕ))
        → ((ys zs : List ℕ) → o ≡ some (ys, zs) → (xs ≡ ys ++ zs) × (length ys ≡ n))
        → {ys zs : List ℕ} → cons_first x o ≡ some (ys, zs)
        → (x ∷ xs ≡ ys ++ zs) × (length ys ≡ suc n)
    step none ih h = cc
    step (some (us, vs)) ih h = ground (arith, ih us vs refl)
