-- ===== src/Pipeline/Receiver/Known.antt =====
-- core/src/pipeline.rs: the set of the identifiers that a receiver knows, when one more is put in.
use rabaska.Prelude.{◌≡◌, refl, ap, true, ◌||◌, List, [], ◌∷◌, ◌++◌, map, arith}
use rabaska.Prelude.Bytes.{Bytes, bytes_eq, bytes_eq_refl}
use rabaska.Pipeline.Receiver.{id_of, contains}

pub map-append_one :
    (seen : List Bytes) (raw : Bytes)
    → map id_of (seen ++ raw ∷ []) ≡ map id_of seen ++ id_of raw ∷ []
map-append_one [] raw = refl
map-append_one (s ∷ seen) raw = ap (λ is. id_of s ∷ is) (map-append_one seen raw)

pub contains-append_one :
    (is : List Bytes) (j i : Bytes) → contains (is ++ j ∷ []) i ≡ (contains is i || bytes_eq j i)
unfolding contains
contains-append_one [] j i = ground arith
contains-append_one (k ∷ is) j i = ground (arith, contains-append_one is j i)

pub contains_still :
    (is : List Bytes) (j i : Bytes) → contains is i ≡ true → contains (is ++ j ∷ []) i ≡ true
contains_still is j i h = ground (arith, contains-append_one is j i)

pub contains_last : (is : List Bytes) (i : Bytes) → contains (is ++ i ∷ []) i ≡ true
contains_last is i = ground (arith, contains-append_one is i i, bytes_eq_refl i)
