-- ===== src/Reverts/Tests.antt =====
-- A run of `flatten_reverts` on two transitions of two accounts.
use rblib_world_chain.Prelude.{ℕ, ◌≡◌, refl, [], ◌∷◌, true, false}
use rblib_world_chain.Reverts.{
  do_nothing, change, AccountRevert, Transition, Reverts, lookup, or_insert, merge_storage,
  merge_info, merge, absorb, absorb_all, flatten, flatten_reverts,
}
use rblib_world_chain.Reverts.History.{history, Summarises, flatten_reverts-Summarises}

abbrev earlier : AccountRevert
earlier = record {
  account = do_nothing;
  storage = (1, 10) ∷ [];
  previous_status = 2;
  wipe_storage = false;
}

abbrev later : AccountRevert
later = record {
  account = change 5;
  storage = (1, 11) ∷ (2, 20) ∷ [];
  previous_status = 3;
  wipe_storage = true;
}

abbrev two_transitions : Reverts
two_transitions = ((7, earlier) ∷ []) ∷ ((8, later) ∷ (7, later) ∷ []) ∷ []

abbrev as_inserted : Transition → Transition
as_inserted m = m

flattened :
    flatten_reverts as_inserted two_transitions
    ≡ ((
      7,
      record {
        account = change 5;
        storage = (1, 10) ∷ (2, 20) ∷ [];
        previous_status = 2;
        wipe_storage = true;
      },
    )
        ∷ (8, later)
        ∷ [])
      ∷ []
unfolding flatten_reverts flatten absorb_all absorb merge merge_info merge_storage or_insert
flattened = refl

flatten_reverts-Summarises_example :
    (t : Transition) × (flatten_reverts as_inserted two_transitions ≡ t ∷ [])
    × ((a : ℕ) → Summarises (history a (flatten two_transitions)) (lookup a t))
flatten_reverts-Summarises_example =
    flatten_reverts-Summarises as_inserted (λ m a. refl) two_transitions
