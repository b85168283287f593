-- ===== src/Controller/RpcClient/Ids.antt =====
-- Ids below a bound, for the ids that controller/rpc_client.py gives out.
use tsanet.Prelude.{
  ℕ, ◌<◌, ◌≡◌, ◌≢◌, refl, ap, ◌&&◌, ltb, Bool, true, none, List, [], ◌∷◌, All, arith,
}
use tsanet.Errors.{Error}
use tsanet.Controller.RpcClient.{Answer, find, put, pop, remove_id, overwrite}

-- All ids of a list, and of the answers, below a bound.
unfoldable pub all_below : ℕ → List ℕ → Bool
all_below n [] = true
all_below n (j ∷ l) = ltb j n && all_below n l

unfoldable pub ids_below : ℕ → List (ℕ × Answer) → Bool
ids_below n [] = true
ids_below n ((j, a) ∷ p) = ltb j n && ids_below n p

pub all_below-weaken : (n m : ℕ) (l : List ℕ) → n < m → all_below n l ≡ true → all_below m l ≡ true
unfolding all_below
all_below-weaken n m [] h a = refl
all_below-weaken n m (x ∷ l) h a = ground (arith, all_below-weaken n m l h)

pub ids_below-weaken :
    (n m : ℕ) (p : List (ℕ × Answer)) → n < m → ids_below n p ≡ true → ids_below m p ≡ true
unfolding ids_below
ids_below-weaken n m [] h b = refl
ids_below-weaken n m ((j, a) ∷ p) h b = ground (arith, ids_below-weaken n m p h)

pub ids_below-put :
    (n id : ℕ) (a : Answer) (p : List (ℕ × Answer))
    → id < n
    → ids_below n p ≡ true
    → ids_below n (put id a p) ≡ true
unfolding ids_below
ids_below-put n id a [] h b = ground arith
ids_below-put n id a ((j, x) ∷ p) h b = ground (arith, ids_below-put n id a p h)

pub ids_below-pop :
    (n id : ℕ) (p : List (ℕ × Answer)) → ids_below n p ≡ true → ids_below n (pop id p) ≡ true
unfolding ids_below
ids_below-pop n id [] b = refl
ids_below-pop n id ((j, x) ∷ p) b = ground (arith, ids_below-pop n id p)

pub ids_below-overwrite :
    (n : ℕ) (e : Error) (p : List (ℕ × Answer)) → ids_below n (overwrite e p) ≡ ids_below n p
unfolding overwrite ids_below
ids_below-overwrite n e [] = refl
ids_below-overwrite n e ((j, x) ∷ p) = ap (λ b. ltb j n && b) (ids_below-overwrite n e p)

pub all_below-remove_id :
    (n id : ℕ) (l : List ℕ) → all_below n l ≡ true → all_below n (remove_id id l) ≡ true
unfolding all_below
all_below-remove_id n id [] a = refl
all_below-remove_id n id (x ∷ l) a = ground (arith, all_below-remove_id n id l)

pub find-below : (n : ℕ) (p : List (ℕ × Answer)) → ids_below n p ≡ true → find n p ≡ none
unfolding ids_below
find-below n [] b = refl
find-below n ((j, a) ∷ p) b = ground (arith, find-below n p)

pub all_below-ne : (n : ℕ) (l : List ℕ) → all_below n l ≡ true → All (λ j. j ≢ n) l
unfolding all_below
all_below-ne n [] a = tt
all_below-ne n (x ∷ l) a = (ground arith, all_below-ne n l (ground arith))
