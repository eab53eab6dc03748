-- ===== src/Decorators/Sharing.antt =====
-- Which mutex and condition variables the classes of a stack share after construction.
use shovel_server.Base.{ℕ, ◌≡◌, refl, ◌≢◌, some, List, [], ◌∷◌, map, arith, get_elem?}
use shovel_server.Decorators.{Kind, Decorator, Syncs, fresh_syncs, wrap}

abbrev pub syncs_of : List Decorator → List Syncs
syncs_of = map (λ d. d.syncs)

-- A constructor shares its objects with the decorator that it wraps, and with no decorator further
-- in: in a stack of three made with different objects the innermost one has others.
wrap_shares_one_level :
    (i j l : ℕ) (k k' k'' : Kind) (ds : List Decorator)
    → i ≢ j
    → (syncs_of (wrap i k (wrap j k' [])) ≡ fresh_syncs i ∷ fresh_syncs i ∷ [])
      × (get_elem? (syncs_of (wrap i k (wrap j k' (wrap l k'' ds)))) 2 ≢ some (fresh_syncs i))
unfolding wrap
wrap_shares_one_level i j l k k' k'' ds h = (refl, λ e. ground arith)
