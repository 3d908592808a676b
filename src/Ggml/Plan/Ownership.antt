-- ===== src/Ggml/Plan/Ownership.antt =====
-- What a plan takes is given back, if its making fails and else when the caches are cleared.
use fortai.Prelude.{
  ℕ, ◌≡◌, Bool, true, false, not, ◌&&◌, some, List, [], ◌∷◌, ◌++◌, ◌==◌, if◌then◌else◌, arith,
}
use fortai.Ledger.{Rules, replay}
use fortai.Ggml.{Matrix}
use fortai.Ggml.Plan.{
  Resource, context, weight_context, buffer, weight_buffer, repack_buffer, plain_buffer, Event,
  Making, plan_make, plan_clear, group_plan_make, group_clear,
}

abbrev index : Resource → ℕ
index context = 0
index weight_context = 1
index buffer = 2
index weight_buffer = 3
index repack_buffer = 4
index plain_buffer = 5

abbrev same : Resource → Resource → Bool
same r s = index r == index s

-- A buffer holds the tensors of a context.
abbrev needs : Resource → Resource → Bool
needs buffer r = same r context
needs weight_buffer r = same r weight_context
needs repack_buffer r = same r weight_context
needs plain_buffer r = same r weight_context
needs _ r = false

abbrev pub rules : Rules Resource
rules = record { same = same; shared = λ r. false; needs = needs }

-- the events of a plan that is made, and cleared if that succeeds
abbrev pub life : List Event × Bool → List Event → List Event
life (es, false) clear = es
life (es, true) clear = es ++ clear

-- What is left behind: the one context, if the other is refused.
abbrev pub left_behind : Making → List Resource
left_behind o =
    if o.libraries && (o.has_context && not o.has_weight_context)
    then context ∷ []
    else if o.libraries && (not o.has_context && o.has_weight_context)
    then weight_context ∷ []
    else []

plan_make-balanced :
    (o : Making) (m : Matrix)
    → o.can_free ≡ true
    → replay rules (life (plan_make o m) (plan_clear o)) [] ≡ some (left_behind o)
unfolding plan_make replay
plan_make-balanced o m f = ground arith

group_plan_make-balanced :
    (o : Making) (ms : List Matrix)
    → o.can_free ≡ true
    → replay rules (life (group_plan_make o ms) (group_clear o ms)) [] ≡ some (left_behind o)
unfolding group_plan_make replay
group_plan_make-balanced o ms f = ground arith

-- Whatever the calls of libggml return, a plan for one matrix and one for a group give back all that
-- they take, once, and each buffer before the context of its tensors: at once where the making
-- fails, and else when the caches are cleared. What is left is a context whose fellow was refused.
-- libggml has its function to free a buffer.
pub plans-IsBalanced :
    (o : Making) (m : Matrix) (ms : List Matrix)
    → o.can_free ≡ true
    → (replay rules (life (plan_make o m) (plan_clear o)) [] ≡ some (left_behind o))
      × (replay rules (life (group_plan_make o ms) (group_clear o ms)) [] ≡ some (left_behind o))
plans-IsBalanced o m ms f = (plan_make-balanced o m f, group_plan_make-balanced o ms f)
