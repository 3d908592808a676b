-- ===== src/Ggml/Cache/Answers.antt =====
-- What a cache answers.
use fortai.Prelude.{
  ℕ, ◌+◌, ◌%◌, ◌^◌, ◌<◌, ◌≡◌, ◌⊎◌, inl, refl, not, ◌||◌, Option, none, some, List, [], ◌∷◌, ◌++◌,
  ltb, leb, if◌then◌else◌, length, arith, length-append, if_rule,
}
use fortai.Libc.{codes}
use fortai.Libc.Environment.{Env}
use fortai.Ggml.{Matrix}
use fortai.Ggml.Cache.{
  Plan, Plans, Outcomes, disabled, find_plan, total_bytes, max_plans, max_bytes, outputs,
  plan_compute, add_plan, plan_cached,
}
use fortai.Ggml.Cache.Copies.{
  exact_bytes, total_bytes-exact_bytes, IsValid, taken, copies-AllCopied, plan_bytes-copies,
  AllCurrent-append, plans_bytes-append, find_plan-current,
}

module _ {W A B : Type 0} (product : ℕ → W → ℕ → ℕ → A → B) (memory : ℕ → W) where
  -- What the computation of a plan must give.
  abbrev pub reference : List Matrix → ℕ → A → List B
  reference ms width activation = outputs product (taken product memory ms) width activation

  plan_compute-reference :
      (o : Outcomes) (p : Plan W) (ms : List Matrix) (width : ℕ) (a : A)
      → p.weights ≡ taken product memory ms
      → p.width ≡ width
      → plan_compute product o p a ≡ (if o.computes then some (reference ms width a) else none)
  unfolding plan_compute
  plan_compute-reference o p ms width a w d =
      λ i. if o.computes then some (outputs product (w i) (d i) a) else none

  -- An answer of a cache is the reference, or there is none; and the cache stays valid.
  abbrev pub IsCached : List Matrix → ℕ → A → Plans W × Option (List B) → Type 0
  IsCached ms width a r = IsValid memory r.0 × ((r.1 ≡ none) ⊎ (r.1 ≡ some (reference ms width a)))

  cached_or_none :
      (o : Outcomes) (r : Option (List B)) (b : List B)
      → r ≡ (if o.computes then some b else none)
      → (r ≡ none) ⊎ (r ≡ some b)
  cached_or_none o r b e = ground (arith, e)

  add_plan-IsCached :
      (c : Plans W) (o : Outcomes) (ms : List Matrix) (width : ℕ) (a : A)
      → IsValid memory c
      → exact_bytes ms < 2 ^ 63
      → IsCached ms width a (add_plan product memory c o ms width a)
  unfolding add_plan
  add_plan-IsCached c o ms width a v b =
      let plan : Plan W = record { weights = taken product memory ms; width = width } in
      let bytes = (c.bytes + total_bytes ms) % 2 ^ 64 in
      let added : Plans W = record { plans = c.plans ++ (plan ∷ []); bytes = bytes } in
      let answer = plan_compute product o plan a in
      if_rule (IsCached ms width a) (leb max_plans (length c.plans) || ltb max_bytes bytes)
        (c, none) (if not o.makes then (c, none) else (added, answer)) (λ full. (v, inl refl))
        λ room.
          if_rule (IsCached ms width a) (not o.makes) (c, none) (added, answer)
            (λ failed. (v, inl refl))
            λ made. (
              record {
                current =
                    AllCurrent-append product memory c.plans plan v.current
                      (copies-AllCopied product memory ms);
                count_in = ground (arith, length-append {0} c.plans (plan ∷ []));
                bytes_are = grind (
                  arith,
                  plans_bytes-append product memory c.plans plan,
                  plan_bytes-copies product memory ms,
                  total_bytes-exact_bytes ms b,
                );
                bytes_in = ground arith;
              },
              cached_or_none o answer (reference ms width a)
                  (plan_compute-reference o plan ms width a refl refl),
            )

  pub plan_cached-IsCached :
      (env : Env) (c : Plans W) (o : Outcomes) (ms : List Matrix) (width : ℕ) (a : A)
      → IsValid memory c
      → exact_bytes ms < 2 ^ 63
      → IsCached ms width a (plan_cached product env memory c o ms width a)
  unfolding plan_cached
  plan_cached-IsCached env c o ms width a v b =
      let after_find : Option (Plan W) → Plans W × Option (List B) = λ found.
        elim found as (λ _. Plans W × Option (List B)) [
          | some plan ↦ (c, plan_compute product o plan a)
          | none ↦ add_plan product memory c o ms width a
        ] in
      if_rule (IsCached ms width a) (disabled (env (codes "FORTAI_GGML_CPU_CACHE"))) (c, none)
        (after_find (find_plan c.plans ms width)) (λ off. (v, inl refl))
        λ on. by_find (find_plan c.plans ms width) refl
    where
      by_find :
          (found : Option (Plan W))
          → find_plan c.plans ms width ≡ found
          → IsCached ms width a (elim found as (λ _. Plans W × Option (List B)) [
            | some plan ↦ (c, plan_compute product o plan a)
            | none ↦ add_plan product memory c o ms width a
          ])
      by_find none f = add_plan-IsCached c o ms width a v b
      by_find (some plan) f =
          let (w, d) = find_plan-current product memory c.plans ms width plan v.current f in
          (
            v,
            cached_or_none o (plan_compute product o plan a) (reference ms width a)
                (plan_compute-reference o plan ms width a w d),
          )
