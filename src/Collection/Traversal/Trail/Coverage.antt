-- ===== src/Collection/Traversal/Trail/Coverage.antt =====
-- What a trail to the end of the last page has passed: every file of every page of the listing.
use makolet.Prelude.{
  ℕ, zero, suc, ◌+◌, ◌<◌, ◌≡◌, ◌⊎◌, inl, inr, refl, sym, Bool, subst, Option, none, some, List, [],
  ◌∷◌, length, get_elem?, arith,
}
use makolet.Domain.Values.{Text}
use makolet.Domain.Remote.{RemoteFile}
use makolet.Collection.Ledger.{Identity}
use makolet.Collection.Pages.{DiscoveryPage, CollectionScope}
use makolet.Collection.Traversal.Trail.{Trail, here, past, turned, ended, IsDone, Finished}

-- The page of a cursor follows that of another.
pub data Follows (listing : Option Text → DiscoveryPage) (c : Option Text)
    : Option Text → Type 0 where
  same : Follows listing c c
  next :
      {d : Option Text} {v : Text}
      → Follows listing c d
      → (listing d).next_cursor ≡ some (some v)
      → Follows listing c (some v)

get_elem?-bound :
    {A : Type 0} (xs : List A) (i : ℕ) (x : A) → get_elem? xs i ≡ some x → i < length xs
get_elem?-bound [] i x h = cc h
get_elem?-bound (y ∷ ys) zero x h = omega arith
get_elem?-bound (y ∷ ys) (suc i) x h = omega (arith, get_elem?-bound ys i x h)

nat_cases : (j i : ℕ) → j < i + 1 → (j < i) ⊎ (j ≡ i)
nat_cases j i h = ground (arith, h)

nothing_below : {A : Type 0} (j : ℕ) → j < 0 → A
nothing_below j h = ground (arith, h)

module _ (listing : Option Text → DiscoveryPage) (scope : CollectionScope)
    (terminal : List (Identity × Bool)) where
  abbrev pub Covered : Option Text → Type 0
  Covered c =
      (i : ℕ) (f : RemoteFile) → get_elem? (listing c).files i ≡ some f → IsDone scope terminal f

  abbrev CoveredTo : Option Text → ℕ → Type 0
  CoveredTo c n =
      (i : ℕ) (f : RemoteFile)
      → i < n
      → get_elem? (listing c).files i ≡ some f
      → IsDone scope terminal f

  page-Covered : (c : Option Text) → CoveredTo c (length (listing c).files) → Covered c
  page-Covered c to i f at = to i f (get_elem?-bound (listing c).files i f at) at

  -- What follows a page is the page, or follows the next one.
  past_page :
      (c d : Option Text) (v : Text)
      → (listing c).next_cursor ≡ some (some v)
      → Follows listing c d
      → (d ≡ c) ⊎ Follows listing (some v) d
  past_page c d v e same = inl refl
  past_page c d v e (next {d = d'} {v = w} follows to) = elim (past_page c d' v e follows) [
    | inl d'≡c ↦
        let w≡v : w ≡ v = cc (d'≡c, e, to) in
        inr (subst (λ x. Follows listing (some v) (some x)) (sym w≡v) same)
    | inr k ↦ inr (next k to)
  ]

  no_page_after : (c d : Option Text) → (listing c).next_cursor ≡ none → Follows listing c d → d ≡ c
  no_page_after c d e same = refl
  no_page_after c d e (next {d = d'} {v = w} follows to) = cc (no_page_after c d' e follows, e, to)

  Trail-CoveredTo :
      {c : Option Text} {i : ℕ} → Trail listing scope terminal none 0 c i → CoveredTo c i
  Trail-CoveredTo here j f j<i at = nothing_below j j<i
  Trail-CoveredTo (past {i = i} trail there done) j f j<i at = elim (nat_cases j i j<i) [
    | inl before ↦ Trail-CoveredTo trail j f before at
    | inr now ↦ subst (IsDone scope terminal) (cc (now, there, at)) done
  ]
  Trail-CoveredTo (turned trail to) j f j<i at = nothing_below j j<i
  Trail-CoveredTo (ended trail to) j f j<i at = nothing_below j j<i

  split :
      {c : Option Text} {i : ℕ}
      → Trail listing scope terminal none 0 c i
      → (d : Option Text) → Follows listing none d
      → Covered d ⊎ Follows listing c d
  split here d follows = inr follows
  split (past trail there done) d follows = split trail d follows
  split (turned {c = c} {v = v} trail to) d follows = elim (split trail d follows) [
    | inl covered ↦ inl covered
    | inr after ↦ elim (past_page c d v to after) [
      | inl d≡c ↦ inl (subst Covered (sym d≡c) (page-Covered c (Trail-CoveredTo trail)))
      | inr ahead ↦ inr ahead
    ]
  ]
  split (ended trail to) d follows = inr follows

  -- A trail from the start of the listing that left the last page has passed every file of every
  -- page.
  pub Finished-Covered :
      Finished listing scope none 0 terminal
      → (d : Option Text) → Follows listing none d
      → Covered d
  Finished-Covered (c, trail, last) d follows = elim (split trail d follows) [
    | inl covered ↦ covered
    | inr after ↦
        subst Covered (sym (no_page_after c d last after)) (page-Covered c (Trail-CoveredTo trail))
  ]
