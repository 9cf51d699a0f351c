-- ===== src/Flock/Operators/Filter.antt =====
-- What `op_filter` returns.
use murmur_ai_harness.Prelude.{
  ◌≤◌, min, ◌≡◌, refl, ◌⊎◌, inl, inr, true, false, Option, none, some, List, [], ◌∷◌, ◌++◌, arith,
  length, take, drop, take-append-drop, length-take, All-map, sort, length-sort, IsChain, sort-perm,
  sort-IsChain, pos_part, leb_ℤ, ℤ, pos, negsuc,
}
use mathlib.Core.List.{Perm}
use murmur_ai_harness.Flock.Artifact.{Artifact, Texts}
use murmur_ai_harness.Flock.Gateway.{done}
use murmur_ai_harness.Flock.Operators.{
  NodeRun, NodeContext, op_filter, by_score, top_k_of, score_of,
}

-- One score is at least another.
abbrev pub IsAtLeast : ℤ → ℤ → Type 0
IsAtLeast (pos m) (pos n) = n ≤ m
IsAtLeast (pos m) (negsuc n) = Unit
IsAtLeast (negsuc m) (pos n) = ⊥
IsAtLeast (negsuc m) (negsuc n) = m ≤ n

IsAtLeast-leb : (m n : ℤ) → leb_ℤ n m ≡ true → IsAtLeast m n
IsAtLeast-leb (pos m) (pos n) h = ground (arith, h)
IsAtLeast-leb (pos m) (negsuc n) h = tt
IsAtLeast-leb (negsuc m) (pos n) h = absurd (ground arith)
IsAtLeast-leb (negsuc m) (negsuc n) h = ground (arith, h)

IsAtLeast-not_leb : (m n : ℤ) → leb_ℤ n m ≡ false → IsAtLeast n m
IsAtLeast-not_leb (pos m) (pos n) h = ground (arith, h)
IsAtLeast-not_leb (pos m) (negsuc n) h = absurd (ground arith)
IsAtLeast-not_leb (negsuc m) (pos n) h = tt
IsAtLeast-not_leb (negsuc m) (negsuc n) h = ground (arith, h)

IsAtLeast-trans : (l m n : ℤ) → IsAtLeast l m → IsAtLeast m n → IsAtLeast l n
IsAtLeast-trans (pos l) (pos m) (pos n) h k = omega arith
IsAtLeast-trans (pos l) (pos m) (negsuc n) h k = tt
IsAtLeast-trans (pos l) (negsuc m) (pos n) h k = absurd k
IsAtLeast-trans (pos l) (negsuc m) (negsuc n) h k = tt
IsAtLeast-trans (negsuc l) (pos m) n h k = absurd h
IsAtLeast-trans (negsuc l) (negsuc m) (pos n) h k = absurd k
IsAtLeast-trans (negsuc l) (negsuc m) (negsuc n) h k = omega arith

-- The score that counts for an item: its own, or else the one in its text, or else zero.
abbrev pub IsScore : Texts → Artifact → ℤ → Type 0
IsScore py a z =
    (a.score ≡ some z)
    ⊎ (a.score ≡ none) × (py.parse_score a.content ≡ some z)
    ⊎ (a.score ≡ none) × (py.parse_score a.content ≡ none) × (z ≡ pos 0)

score_of-IsScore : (py : Texts) (a : Artifact) → IsScore py a (score_of py a)
unfolding score_of
score_of-IsScore py a = go a.score (py.parse_score a.content) refl refl
  where
    go :
        (own parsed : Option ℤ)
        → a.score ≡ own
        → py.parse_score a.content ≡ parsed
        → IsScore py a (elim own [ some s ↦ s | none ↦ elim parsed [ some s ↦ s | none ↦ pos 0 ] ])
    go (some s) parsed e f = inl e
    go none (some s) e f = inr (inl (e, f))
    go none none e f = inr (inr (e, f, refl))

-- The one item's score is at least the other's.
abbrev pub IsNoWorse : Texts → Artifact → Artifact → Type 0
IsNoWorse py a b = (m n : ℤ) × IsScore py a m × IsScore py b n × IsAtLeast m n

IsNoWorse-by :
    (py : Texts) (a b : Artifact) → IsAtLeast (score_of py a) (score_of py b) → IsNoWorse py a b
IsNoWorse-by py a b h =
    (score_of py a, score_of py b, score_of-IsScore py a, score_of-IsScore py b, h)

IsChain-map :
    {A : Type 0} (R Q : A → A → Type 0) (f : (a b : A) → R a b → Q a b) (xs : List A)
    → IsChain R xs
    → IsChain Q xs
IsChain-map R Q f [] h = tt
IsChain-map R Q f (x ∷ xs) h = (All-map (R x) (Q x) xs (f x) h.0, IsChain-map R Q f xs h.1)

-- The filter returns as many items as `top_k` allows, none if it is negative, and makes no call.
-- What it returns and then what it leaves out are all items, and there no item has a smaller score
-- than one that follows it.
pub op_filter-best :
    (ctx : NodeContext) (s : NodeRun)
    → (kept left_out : List Artifact) × (op_filter ctx s ≡ (done kept, s))
      × (length kept ≡ min (pos_part (top_k_of ctx)) (length ctx.items))
      × Perm (kept ++ left_out) ctx.items
      × IsChain (IsNoWorse ctx.py) (kept ++ left_out)
unfolding op_filter
op_filter-best ctx s =
    let k = pos_part (top_k_of ctx) in
    let ranked = sort (by_score ctx.py) ctx.items in
    (
      take k ranked,
      drop k ranked,
      refl,
      omega (arith, length-take k ranked, length-sort (by_score ctx.py) ctx.items),
      rw (take-append-drop k ranked) (sort-perm (by_score ctx.py) ctx.items),
      rw (take-append-drop k ranked) (
          IsChain-map (λ (a b : Artifact). IsAtLeast (score_of ctx.py a) (score_of ctx.py b))
            (IsNoWorse ctx.py) (IsNoWorse-by ctx.py) ranked
            (sort-IsChain (by_score ctx.py)
              (λ (a b : Artifact). IsAtLeast (score_of ctx.py a) (score_of ctx.py b))
              (λ a b. IsAtLeast-leb (score_of ctx.py a) (score_of ctx.py b))
              (λ a b. IsAtLeast-not_leb (score_of ctx.py a) (score_of ctx.py b))
              (λ a b c. IsAtLeast-trans (score_of ctx.py a) (score_of ctx.py b) (score_of ctx.py c))
              ctx.items)),
    )
