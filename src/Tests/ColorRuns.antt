-- ===== src/Tests/ColorRuns.antt =====
-- Runs of the colours.
use mathlib.Core.Option.{some-injective}
use discordgo.Base.{
  ℕ, zero, suc, false, ◌≤◌, ◌≡◌, refl, ap, sym, ◌∙◌, true, Bool, List, [], ◌∷◌, get_elem?, arith,
  if◌then◌else◌, some,
}
use discordgo.State.Types.{Role}
use discordgo.State.Colors.{
  is_colored, first_role_color, role_less, IsSorting, first_role_color_lem,
}
use discordgo.Tests.{administrator_role, everyone_role}

abbrev red : Role
red = record administrator_role { color = 16711680; position = 2 }

abbrev blue : Role
blue = record everyone_role { id = "21"; color = 255; position = 1 }

abbrev sort_two : (Role → Role → Bool) → List Role → List Role
sort_two less (r ∷ r' ∷ []) = if less r' r then r' ∷ r ∷ [] else r ∷ r' ∷ []
sort_two less rs = rs

abbrev unsorted : List Role
unsorted = blue ∷ red ∷ []

unsorted_kept :
    (j : ℕ) (r : Role)
    → get_elem? unsorted j ≡ some r
    → (i : ℕ) × (get_elem? (sort_two role_less unsorted) i ≡ some r)
unsorted_kept zero r at = (1, at)
unsorted_kept (suc zero) r at = (0, at)
unsorted_kept (suc (suc j)) r at = absurd (cc)

unsorted_known :
    (i : ℕ) (r : Role)
    → get_elem? (sort_two role_less unsorted) i ≡ some r
    → (j : ℕ) × (get_elem? unsorted j ≡ some r)
unsorted_known zero r at = (1, at)
unsorted_known (suc zero) r at = (0, at)
unsorted_known (suc (suc j)) r at = absurd (cc)

unsorted_ordered :
    (i j : ℕ) (r r' : Role)
    → i ≤ j
    → get_elem? (sort_two role_less unsorted) i ≡ some r
    → get_elem? (sort_two role_less unsorted) j ≡ some r'
    → role_less r' r ≡ false
unsorted_ordered zero zero r r' le at at' =
    ap (λ x. role_less x r) (sym (some-injective _ _ at'))
    ∙ ap (role_less red) (sym (some-injective _ _ at))
unsorted_ordered zero (suc zero) r r' le at at' =
    ap (λ x. role_less x r) (sym (some-injective _ _ at'))
    ∙ ap (role_less blue) (sym (some-injective _ _ at))
unsorted_ordered (suc zero) (suc zero) r r' le at at' =
    ap (λ x. role_less x r) (sym (some-injective _ _ at'))
    ∙ ap (role_less blue) (sym (some-injective _ _ at))
unsorted_ordered (suc i) zero r r' le at at' = absurd (omega arith)
unsorted_ordered i (suc (suc j)) r r' le at at' = absurd (cc)
unsorted_ordered (suc (suc i)) (suc zero) r r' le at at' = absurd (omega arith)

unsorted-IsSorting : IsSorting role_less unsorted (sort_two role_less unsorted)
unsorted-IsSorting = record {
  kept = unsorted_kept;
  known = unsorted_known;
  ordered = unsorted_ordered;
}

first_role_color_lem_example :
    (k : ℕ) × (top : Role) × (get_elem? unsorted k ≡ some top)
    × (is_colored ("20" ∷ "21" ∷ []) top ≡ true)
    × (first_role_color sort_two unsorted "10" ("20" ∷ "21" ∷ []) ≡ top.color)
    × ((j' : ℕ) (r' : Role)
        → get_elem? unsorted j' ≡ some r'
        → is_colored ("20" ∷ "21" ∷ []) r' ≡ true
        → r'.position ≤ top.position)
first_role_color_lem_example =
    first_role_color_lem sort_two unsorted "10" ("20" ∷ "21" ∷ []) 0 blue unsorted-IsSorting refl
      refl
