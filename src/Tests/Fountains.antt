-- ===== src/Tests/Fountains.antt =====
-- The fountain code of the tests, where it makes two packets: either of them gives the object.
use rabaska.Prelude.{
  zero, suc, ◌≡◌, ◌≢◌, ◌≤◌, ap, sym, subst, ◌∙◌, take, drop, some, List, [], ◌∷◌, length, refl,
  arith,
}
use rabaska.Prelude.Bytes.{Bytes}
use rabaska.Pipeline.Receiver.{id_of}
use rabaska.Pipeline.Transfer.{IsFrom, IsNoneOr, fed, Recovers}
use rabaska.Pipeline.Transfer.Completing.{Completes}
use rabaska.Tests.Toys.{toy_fountain, toy_fed}

abbrev pub letters : Bytes
letters = 10 ∷ 20 ∷ 30 ∷ []

abbrev pub an_id : Bytes
an_id = 1 ∷ 2 ∷ 3 ∷ 4 ∷ 5 ∷ 6 ∷ 7 ∷ 8 ∷ []

module _ (oti object p q : Bytes) (first : take (toy_fountain.new_decoder oti) (drop 4 p) ≡ object)
    (second : take (toy_fountain.new_decoder oti) (drop 4 q) ≡ object) where
  -- One packet is enough.
  gives :
      (ps : List Bytes) (r : Bytes)
      → IsFrom (p ∷ q ∷ []) r
      → (toy_fountain.feed (fed (toy_fountain.new_decoder oti) ps) r).1 ≡ some object
  gives ps r (zero, lt, e) =
      ap (λ d. some (take d (drop 4 r))) (toy_fed (toy_fountain.new_decoder oti) ps)
      ∙ ap (λ x. some (take (toy_fountain.new_decoder oti) (drop 4 x))) (sym e)
      ∙ ap some first
  gives ps r (suc zero, lt, e) =
      ap (λ d. some (take d (drop 4 r))) (toy_fed (toy_fountain.new_decoder oti) ps)
      ∙ ap (λ x. some (take (toy_fountain.new_decoder oti) (drop 4 x))) (sym e)
      ∙ ap some second
  gives ps r (suc (suc i), lt, e) = absurd (omega arith)

  pub toy-Recovers : Recovers oti object (p ∷ q ∷ [])
  toy-Recovers = record {
    feed = λ ps r all from. subst (IsNoneOr object) (sym (gives ps r from)) refl;
  }

  pub toy-Completes :
      4 ≤ length p → 4 ≤ length q → id_of p ≢ id_of q → Completes oti object (p ∷ q ∷ [])
  toy-Completes long_p long_q apart = record {
    feed = λ ps r all from covers. gives ps r from;
    same_id = tell_apart;
    long = have_ids;
  }
    where
      have_ids : (r : Bytes) → IsFrom (p ∷ q ∷ []) r → 4 ≤ length r
      have_ids r (zero, lt, e) = subst (λ x. 4 ≤ length x) e long_p
      have_ids r (suc zero, lt, e) = subst (λ x. 4 ≤ length x) e long_q
      have_ids r (suc (suc i), lt, e) = absurd (omega arith)

      tell_apart :
          (r t : Bytes) → IsFrom (p ∷ q ∷ []) r → IsFrom (p ∷ q ∷ []) t → id_of r ≡ id_of t → r ≡ t
      tell_apart r t (zero, _, e) (zero, _, e') same = sym e ∙ e'
      tell_apart r t (suc zero, _, e) (suc zero, _, e') same = sym e ∙ e'
      tell_apart r t (zero, _, e) (suc zero, _, e') same =
          absurd (apart (ap id_of e ∙ same ∙ ap id_of (sym e')))
      tell_apart r t (suc zero, _, e) (zero, _, e') same =
          absurd (apart (ap id_of e' ∙ sym same ∙ ap id_of (sym e)))
      tell_apart r t (suc (suc i), lt, e) _ same = absurd (omega arith)
      tell_apart r t (zero, _, e) (suc (suc i), lt, e') same = absurd (omega arith)
      tell_apart r t (suc zero, _, e) (suc (suc i), lt, e') same = absurd (omega arith)
