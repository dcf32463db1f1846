-- ===== src/Comps/Aggregate/Contract.antt =====
-- What the generated aggregation functions (`groupaggr_body` of scripts/generate-functions.py) come
-- to on records that are not none.
use Prim.Native.Nat.{bit_and, bit_and-bitwise}
use nfql.Prelude.{ℕ, ◌+◌, ◌%◌, ◌^◌, ◌<◌, ◌≡◌, refl, ap, ◌∙◌, Bool, List, [], ◌∷◌, arith, map}
use nfql.Word.{Buffer, Width, load, store}
use nfql.Libc.{Libc}
use nfql.Comps.Aggregate.{
  sum, min, max, prod, and_bits, accumulate, add_u64, mul_u64, first_below, first_above, aggr_func,
  values_of, write_value,
}

abbrev pub total : List ℕ → ℕ
total [] = 0
total (n ∷ ns) = n + total ns

abbrev pub fields : Width → ℕ → List Buffer → List ℕ
fields w field_offset records = map (λ rec. load w rec field_offset) records

accumulate-add :
    (ns : List ℕ) (v : ℕ) → v < 2 ^ 64 → accumulate add_u64 v ns ≡ (v + total ns) % 2 ^ 64
unfolding accumulate
accumulate-add [] v h = omega arith
accumulate-add (n ∷ ns) v h = accumulate-add ns ((v + n) % 2 ^ 64) (omega arith) ∙ omega arith

accumulate_sum : (ns : List ℕ) → accumulate add_u64 0 ns ≡ total ns % 2 ^ 64
accumulate_sum ns = omega (arith, accumulate-add ns 0 (omega arith))

accumulate_zero : (op : ℕ → ℕ → ℕ) → ((n : ℕ) → op 0 n ≡ 0) → (ns : List ℕ) → accumulate op 0 ns ≡ 0
unfolding accumulate
accumulate_zero op z [] = refl
accumulate_zero op z (n ∷ ns) = ap (λ v. accumulate op v ns) (z n) ∙ accumulate_zero op z ns

first_below_self : (first : ℕ) (ns : List ℕ) → first_below first ns first ≡ first
unfolding first_below
first_below_self first [] = refl
first_below_self first (n ∷ ns) = ground (arith, first_below_self first ns)

first_above_self : (first : ℕ) (ns : List ℕ) → first_above first ns first ≡ first
unfolding first_above
first_above_self first [] = refl
first_above_self first (n ∷ ns) = ground (arith, first_above_self first ns)

module _ (libc : Libc) (w : Width) (rec : Buffer) (records : List Buffer)
    (group_aggregation : Buffer) (field_offset : ℕ) (if_aggr_common : Bool) where
  -- The sum of a field is kept modulo 2^64, and written to the group's record at the field's width.
  pub aggr_sum_lem :
      aggr_func libc sum w (rec ∷ records) group_aggregation field_offset if_aggr_common ≡ (
        record { values = total (fields w field_offset (rec ∷ records)) % 2 ^ 64 ∷ [] },
        store w group_aggregation field_offset
            (total (fields w field_offset (rec ∷ records)) % 2 ^ 64),
      )
  unfolding aggr_func values_of write_value
  aggr_sum_lem =
      ap (λ v. (record { values = v ∷ [] }, store w group_aggregation field_offset v))
        (accumulate_sum (fields w field_offset (rec ∷ records)))

  -- The minimum and the maximum of a field are both the first record's field, whatever the others
  -- hold, since the loop reads the first record each time.
  pub aggr_min_max_first :
      aggr_func libc min w (rec ∷ records) group_aggregation field_offset if_aggr_common ≡ (
        record { values = load w rec field_offset ∷ [] },
        store w group_aggregation field_offset (load w rec field_offset),
      )
      × aggr_func libc max w (rec ∷ records) group_aggregation field_offset if_aggr_common ≡ (
        record { values = load w rec field_offset ∷ [] },
        store w group_aggregation field_offset (load w rec field_offset),
      )
  unfolding aggr_func values_of write_value
  aggr_min_max_first = (
    ap (λ v. (record { values = v ∷ [] }, store w group_aggregation field_offset v))
        (first_below_self (load w rec field_offset) (fields w field_offset records)),
    ap (λ v. (record { values = v ∷ [] }, store w group_aggregation field_offset v))
        (first_above_self (load w rec field_offset) (fields w field_offset records)),
  )

  -- The product and the bitwise and of a field are both zero, since they start from zero.
  pub aggr_prod_and_zero :
      aggr_func libc prod w (rec ∷ records) group_aggregation field_offset if_aggr_common
        ≡ (record { values = 0 ∷ [] }, store w group_aggregation field_offset 0)
      × aggr_func libc and_bits w (rec ∷ records) group_aggregation field_offset if_aggr_common
        ≡ (record { values = 0 ∷ [] }, store w group_aggregation field_offset 0)
  unfolding aggr_func values_of write_value
  aggr_prod_and_zero = (
    ap (λ v. (record { values = v ∷ [] }, store w group_aggregation field_offset v))
        (accumulate_zero mul_u64 (λ n. omega arith) (fields w field_offset (rec ∷ records))),
    ap (λ v. (record { values = v ∷ [] }, store w group_aggregation field_offset v))
        (accumulate_zero bit_and (λ n i. bit_and-bitwise 0 n i)
          (fields w field_offset (rec ∷ records))),
  )
