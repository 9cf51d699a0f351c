-- ===== src/Flock/Operators/Loops.antt =====
-- How the loop of `op_loop` goes and ends.
use murmur_ai_harness.Prelude.{
  ℕ, zero, suc, ◌+◌, String, ◌≡◌, refl, ap, ◌∙◌, ◌⊎◌, inl, inr, true, false, not, ◌&&◌, Option,
  none, some, List, [], ◌∷◌, arith, ◌==◌, if◌then◌else◌, &&_iff, Bool-cases, has_text, length,
}
use mathlib.Core.Path.{subst}
use murmur_ai_harness.Flock.Gateway.{done, done_inj, Exec, pure}
use murmur_ai_harness.Flock.Operators.{NodeRun, NodeContext, call, refine, is_final, or_default}
use murmur_ai_harness.Flock.Operators.Bracket.{bind-done, call-calls}

-- The draft holds the stop text, where there is one: the configured text, or else DONE.
abbrev pub IsStopped : NodeContext → String → Type 0
IsStopped ctx draft =
    (stop : String) × ((ctx.node.params.stop ≡ some stop)
      ⊎ (ctx.node.params.stop ≡ none) × (stop ≡ "DONE"))
    × ((stop == "") ≡ false)
    × (has_text stop draft ≡ true)

final-IsStopped :
    (ctx : NodeContext) (draft : String) → is_final ctx draft ≡ true → IsStopped ctx draft
final-IsStopped ctx draft h = go ctx.node.params.stop refl h
  where
    go :
        (o : Option String)
        → ctx.node.params.stop ≡ o
        → (not ((elim o [ none ↦ "DONE" | some s ↦ s ]) == "")
            && has_text (elim o [ none ↦ "DONE" | some s ↦ s ]) draft)
          ≡ true
        → IsStopped ctx draft
    go none e k = ("DONE", inr (e, refl), refl, k)
    go (some s) e k =
        let both = (&&_iff (not (s == "")) (has_text s draft)).0 k in
        (s, inl e, ground (arith, both.0), both.1)

stopped-final :
    (ctx : NodeContext) (draft : String) → IsStopped ctx draft → is_final ctx draft ≡ true
stopped-final ctx draft (stop, inl e, nonempty, holds) = rw (e, nonempty, holds) refl
stopped-final ctx draft (stop, inr (e, d), nonempty, holds) =
    let h = rw d at holds in rw e (rw h refl)

abbrev loop_role : NodeContext → String
loop_role ctx =
    or_default ctx.node.role "Improve the draft. Append 'DONE' on its own line when complete."

-- One call of the loop.
abbrev pub improve : NodeContext → String → Exec NodeRun String
improve ctx draft = call ctx (loop_role ctx) draft

-- The answers of a loop with so many iterations left, from a draft: each is the model's answer to
-- the one before; the loop ends with the first that holds the stop text, and else when none is
-- left.
abbrev pub IsRefined : NodeContext → ℕ → String → NodeRun → List String → NodeRun → Type 0
IsRefined ctx zero draft s [] s' = s ≡ s'
IsRefined ctx zero draft s (reply ∷ replies) s' = ⊥
IsRefined ctx (suc left) draft s [] s' = ⊥
IsRefined ctx (suc left) draft s (reply ∷ replies) s' =
    (next : NodeRun) × (improve ctx draft s ≡ (done reply, next))
    × (IsStopped ctx reply × (replies ≡ []) × (next ≡ s')
        ⊎ (IsStopped ctx reply → ⊥) × IsRefined ctx left reply next replies s')

-- The last of the answers, or else the draft.
abbrev pub last_of : String → List String → String
last_of draft [] = draft
last_of draft (reply ∷ replies) = last_of reply replies

-- A loop that returned: its answers, of which the last is its draft, one call for each.
pub record IsLoopEnd (ctx : NodeContext) (left before : ℕ) (draft : String) (s s' : NodeRun)
    (r : String × ℕ) : Type 0 where
  pub replies : List String
  pub last : r.0 ≡ last_of draft replies
  pub counted : r.1 ≡ before + length replies
  pub refined : IsRefined ctx left draft s replies s'
  pub calls : s'.calls ≡ s.calls + length replies

after_reply :
    (ctx : NodeContext) (left before : ℕ) (draft reply : String) (s next : NodeRun)
    (more : Exec NodeRun (String × ℕ)) (r : String × ℕ)
    → call ctx
        (or_default ctx.node.role "Improve the draft. Append 'DONE' on its own line when complete.")
        draft
        s
      ≡ (done reply, next)
    → next.calls ≡ s.calls + 1
    → ((if is_final ctx reply then pure (reply, before + 1) else more) next).0 ≡ done r
    → ((more next).0 ≡ done r → IsLoopEnd ctx left (before + 1) reply next (more next).1 r)
    → IsLoopEnd ctx
        (suc left)
        before
        draft
        s
        ((if is_final ctx reply then pure (reply, before + 1) else more) next).1
        r
after_reply ctx left before draft reply s next more r asked one h rest =
    elim (Bool-cases (is_final ctx reply)) [
      | inl stop ↦
          let e : (reply, before + 1) ≡ r = done_inj (rw stop at h) in
          rw stop (
            subst (IsLoopEnd ctx (suc left) before draft s next) e (record {
              replies = reply ∷ [];
              last = refl;
              counted = refl;
              refined = (next, asked, inl (final-IsStopped ctx reply stop, refl, refl));
              calls = one;
            }))
      | inr on ↦
          let n = rest (rw on at h) in
          rw on (record {
            replies = reply ∷ n.replies;
            last = n.last;
            counted = n.counted ∙ omega arith;
            refined = (
              next,
              asked,
              inr (
                λ stopped. let yes = stopped-final ctx reply stopped in absurd (ground arith),
                n.refined,
              ),
            );
            calls = omega (arith, n.calls, one);
          })
    ]

-- A loop that returns has the last of its answers, or its draft if no iteration was left, and their
-- number. Each answer is the model's to the one before, at one successful call; one that holds the
-- stop text, the configured one or else DONE if it is not empty, is the last; and without such an
-- answer there is one for each iteration that was left.
pub refine-IsLoopEnd :
    (ctx : NodeContext) (left before : ℕ) (draft : String) (s : NodeRun) (r : String × ℕ)
    → (refine ctx left before draft s).0 ≡ done r
    → IsLoopEnd ctx left before draft s (refine ctx left before draft s).1 r
unfolding refine
refine-IsLoopEnd ctx zero before draft s r h =
    subst (IsLoopEnd ctx zero before draft s s) (done_inj h) (record {
      replies = [];
      last = refl;
      counted = omega arith;
      refined = refl;
      calls = omega arith;
    })
refine-IsLoopEnd ctx (suc left) before draft s r h =
    let (reply, answered, rest, same) = bind-done (improve ctx draft) _ s r h in
    rw same (
      after_reply ctx left before draft reply s (improve ctx draft s).1 _ r
        (ap (λ o. (o, (improve ctx draft s).1)) answered)
        (call-calls ctx (loop_role ctx) draft s reply answered) rest
        (refine-IsLoopEnd ctx left (before + 1) reply (improve ctx draft s).1 r))
