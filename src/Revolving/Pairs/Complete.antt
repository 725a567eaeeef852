-- ===== src/Revolving/Pairs/Complete.antt =====
-- Which accounts `require_revolving_contribution_pairs` accepts.
use stendar_l.Base.{◌==◌, ◌≡◌, refl, some, arith, List, [], ◌∷◌}
use stendar_l.Base.Keys.{length, count, remove_key, count-remove_key}
use stendar_l.Base.Word.{u64_max, checked_mul}
use stendar_l.Error.{StendarError, ok, ok_or, require, >>=-eq-ok}
use stendar_l.State.Contract.{Pubkey}
use stendar_l.Ledger.{Accounts, Runtime}
use stendar_l.Revolving.Pairs.{check_pair, check_pairs, require_revolving_contribution_pairs}

-- The contribution accounts among pairs of a contribution and an escrow.
pub pair_keys : List Pubkey → List Pubkey
pair_keys [] = []
pair_keys (k ∷ []) = []
pair_keys (k ∷ e ∷ infos) = k ∷ pair_keys infos

check_pair-remove_key :
    (r : Runtime) (a : Accounts) (contract_key k e : Pubkey) (expected rest : List Pubkey)
    → check_pair r a contract_key k e expected ≡ ok rest
    → remove_key k expected ≡ some rest
unfolding check_pair
check_pair-remove_key r a contract_key k e expected rest h = ground arith

check_pairs-count :
    (r : Runtime) (a : Accounts) (contract_key : Pubkey) (infos expected : List Pubkey) (j : Pubkey)
    → check_pairs r a contract_key infos expected ≡ ok tt
    → count j (pair_keys infos) ≡ count j expected
unfolding check_pairs pair_keys
check_pairs-count r a contract_key [] [] j h = refl
check_pairs-count r a contract_key [] (x ∷ xs) j h = ground arith
check_pairs-count r a contract_key (k ∷ []) expected j h = ground arith
check_pairs-count r a contract_key (k ∷ e ∷ infos) expected j h =
    let (rest, p, h1) = >>=-eq-ok (check_pair r a contract_key k e expected) _ h in
    let removed = check_pair-remove_key r a contract_key k e expected rest p in
    omega (
      arith,
      check_pairs-count r a contract_key infos rest j h1,
      count-remove_key k j expected rest removed,
    )

-- If the test passes, then the contribution accounts passed are those of the contract, each as often
-- as the contract lists it, in whatever order.
pub require_revolving_contribution_pairs_complete :
    (r : Runtime) (a : Accounts) (contract_key : Pubkey) (expected infos : List Pubkey) (j : Pubkey)
    → require_revolving_contribution_pairs r a contract_key expected infos ≡ ok tt
    → count j (pair_keys infos) ≡ count j expected
unfolding require_revolving_contribution_pairs
require_revolving_contribution_pairs_complete r a contract_key expected infos j h =
    let (total, p, h1) =
      >>=-eq-ok (ok_or (checked_mul u64_max (length expected) 2) StendarError.arithmetic_overflow) _
        h in
    let (u, q, h2) =
      >>=-eq-ok (require (length infos == total) StendarError.invalid_contribution) _ h1 in
    check_pairs-count r a contract_key infos expected j h2
