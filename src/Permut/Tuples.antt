-- ===== src/Permut/Tuples.antt =====
-- The specification of the iterator of src/utils.c: all tuples, the last entry running fastest,
-- and those that are still to come behind a tuple.
use nfql.Prelude.{
  ℕ, zero, suc, ◌+◌, ◌-◌, ◌≤◌, ◌<◌, ◌≡◌, refl, sym, ap, Bool, true, false, List, [], ◌∷◌, ◌++◌, map,
  arith, ltb, ltb→lt, length, All, Bool-cases, inl, inr, set,
}
use nfql.Permut.Odometer.{step_head, odometer}

-- The tuples that go on as in `rest`, with first entries from `first`, `count` of them.
unfoldable pub from_heads : ℕ → ℕ → List (List ℕ) → List (List ℕ)
from_heads first zero rest = []
from_heads first (suc count) rest = map (◌∷◌ first) rest ++ from_heads (first + 1) count rest

-- Each entry runs from 1 to its count.
unfoldable pub all_tuples : List ℕ → List (List ℕ)
unfolding from_heads
all_tuples [] = [] ∷ []
all_tuples (c ∷ cs) = from_heads 1 c (all_tuples cs)

-- The tuples behind a given one.
unfoldable pub remaining : List ℕ → List ℕ → List (List ℕ)
unfolding all_tuples
remaining (c ∷ cs) (t ∷ ts) =
    map (◌∷◌ t) (remaining cs ts) ++ from_heads (t + 1) (c - t) (all_tuples cs)
remaining _ ts = []

unfoldable pub ones : List ℕ → List ℕ
ones [] = []
ones (c ∷ cs) = 1 ∷ ones cs

-- `1 ≤ t ≤ c` at every place.
abbrev pub InRange : List ℕ → List ℕ → Type 0
InRange [] [] = Unit
InRange (c ∷ cs) (t ∷ ts) = (1 ≤ t) × (t ≤ c) × InRange cs ts
InRange [] (t ∷ ts) = ⊥
InRange (c ∷ cs) [] = ⊥

abbrev pub AllPositive : List ℕ → Type 0
AllPositive cs = All (λ c. 1 ≤ c) cs

from_heads_step :
    (c t : ℕ) (rest : List (List ℕ))
    → t < c
    → from_heads (t + 1) (c - t) rest
      ≡ map (◌∷◌ (t + 1)) rest ++ from_heads (t + 1 + 1) (c - (t + 1)) rest
unfolding from_heads
from_heads_step c t rest h = let e : c - t ≡ suc (c - (t + 1)) = omega arith in rw e refl

from_heads_end : (c t : ℕ) (rest : List (List ℕ)) → c ≤ t → from_heads (t + 1) (c - t) rest ≡ []
unfolding from_heads
from_heads_end c t rest h = let e : c - t ≡ 0 = omega arith in rw e refl

from_heads_first :
    (c : ℕ) (rest : List (List ℕ))
    → 1 ≤ c
    → from_heads 1 c rest ≡ map (◌∷◌ 1) rest ++ from_heads 2 (c - 1) rest
from_heads_first c rest h =
    let whole : c - 0 ≡ c = omega arith in rw whole at (from_heads_step c 0 rest h)

-- All tuples begin with the one of ones.
pub all_tuples-ones :
    (cs : List ℕ) → AllPositive cs → all_tuples cs ≡ ones cs ∷ remaining cs (ones cs)
unfolding all_tuples remaining ones
all_tuples-ones [] h = refl
all_tuples-ones (zero ∷ cs) h = absurd (omega arith)
all_tuples-ones (suc c ∷ cs) h =
    let e : suc c - 1 ≡ c = omega arith in rw (all_tuples-ones cs h.1, e) refl

-- What a step of the odometer does to the tuples that remain.
abbrev pub Steps : List ℕ → List (List ℕ) → Bool × List ℕ → Type 0
Steps cs before (true, ts) = before ≡ ts ∷ remaining cs ts
Steps cs before (false, ts) = (before ≡ []) × (ts ≡ ones cs)

step_head-Steps :
    (c t : ℕ) (cs : List ℕ) (before : List (List ℕ)) (r : Bool × List ℕ)
    → AllPositive cs
    → Steps cs before r
    → Steps
        (c ∷ cs)
        (map (◌∷◌ t) before ++ from_heads (t + 1) (c - t) (all_tuples cs))
        (step_head c t r)
unfolding remaining ones step_head
step_head-Steps c t cs before (true, ts) pos s = rw s refl
step_head-Steps c t cs before (false, ts) pos s = elim (Bool-cases (ltb t c)) [
  | inl e ↦
      rw (e, s.0, s.1, from_heads_step c t (all_tuples cs) (ltb→lt t c e), all_tuples-ones cs pos)
        refl
  | inr e ↦ rw e (rw (s.0, from_heads_end c t (all_tuples cs) (ground arith)) refl, ap (◌∷◌ 1) s.1)
]

pub odometer-Steps :
    (cs ts : List ℕ)
    → AllPositive cs
    → length ts ≡ length cs
    → Steps cs (remaining cs ts) (odometer cs ts)
unfolding remaining ones odometer
odometer-Steps [] [] pos h = (refl, refl)
odometer-Steps [] (t ∷ ts) pos h = absurd (omega arith)
odometer-Steps (c ∷ cs) [] pos h = absurd (omega arith)
odometer-Steps (c ∷ cs) (t ∷ ts) pos h =
    step_head-Steps c t cs (remaining cs ts) (odometer cs ts) pos.1
      (odometer-Steps cs ts pos.1 (omega arith))

pub length-odometer : (cs ts : List ℕ) → length (odometer cs ts).1 ≡ length ts
unfolding odometer step_head
length-odometer [] ts = refl
length-odometer (c ∷ cs) [] = refl
length-odometer (c ∷ cs) (t ∷ ts) = ground (arith, length-odometer cs ts)

-- The tuple that `iter_init` leaves: ones, and a last entry of 0.
pub remaining_start :
    (cs : List ℕ)
    → AllPositive cs
    → 1 ≤ length cs
    → remaining cs (set (ones cs) (length cs - 1) 0) ≡ all_tuples cs
unfolding remaining ones
remaining_start [] pos h = absurd (omega arith)
remaining_start (c ∷ []) pos h = let e : c - 0 ≡ c = omega arith in rw e refl
remaining_start (c ∷ d ∷ cs) pos h =
    let last : suc (suc (length cs)) - 1 ≡ suc (length cs) = omega arith in
    let tail_last : suc (length cs) - 1 ≡ length cs = omega arith in
    let tail : remaining (d ∷ cs) (set (ones (d ∷ cs)) (length cs) 0) ≡ all_tuples (d ∷ cs) =
      rw tail_last at (remaining_start (d ∷ cs) pos.1 (omega arith)) in
    rw (last, remaining, tail) (sym (from_heads_first c (all_tuples (d ∷ cs)) pos.0))
