-- ===== src/Orchestrator/Classification/Size.antt =====
-- The loop of `_payload_size` ends with the number of characters in the payload.
use newchanges.Base.{ℕ, zero, suc, ◌+◌, ◌<◌, ◌≡◌, arith, List, [], ◌∷◌, some, ap, ◌∙◌}
use newchanges.Orchestrator.Classification.{
  Value, Items, Fields, text_length, extend_items, extend_keys, extend_values, size_step, size_loop,
  rounds, or_else, rounds_items, rounds_fields, payload_size,
}

-- The characters of all texts, keys and scalars in a value, by recursion on it.
unfoldable mutual
  pub characters : Value → ℕ
  characters Value.null = 0
  characters (Value.scalar s) = text_length s
  characters (Value.text s) = text_length s
  characters (Value.dict fields) = characters_fields fields
  characters (Value.sequence items) = characters_items items

  pub characters_items : Items → ℕ
  characters_items Items.nil = 0
  characters_items (Items.cons v vs) = characters v + characters_items vs

  pub characters_fields : Fields → ℕ
  characters_fields Fields.end = 0
  characters_fields (Fields.field k v rest) = text_length k + characters v + characters_fields rest

-- A measure of a stack by a measure of its values.
abbrev on_stack : (Value → ℕ) → List Value → ℕ
on_stack g [] = 0
on_stack g (v ∷ stack) = g v + on_stack g stack

rounds-extend_items :
    (vs : Items) (s : List Value)
    → on_stack rounds (extend_items vs s) ≡ rounds_items vs + on_stack rounds s
unfolding rounds
rounds-extend_items Items.nil s = omega arith
rounds-extend_items (Items.cons v vs) s = omega (arith, rounds-extend_items vs (v ∷ s))

characters-extend_items :
    (vs : Items) (s : List Value)
    → on_stack characters (extend_items vs s) ≡ characters_items vs + on_stack characters s
unfolding characters
characters-extend_items Items.nil s = omega arith
characters-extend_items (Items.cons v vs) s = omega (arith, characters-extend_items vs (v ∷ s))

-- What the keys and the values of a dict add to a measure.
abbrev over_keys : (Value → ℕ) → Fields → ℕ
over_keys g Fields.end = 0
over_keys g (Fields.field k v rest) = g (Value.text k) + over_keys g rest

abbrev over_values : (Value → ℕ) → Fields → ℕ
over_values g Fields.end = 0
over_values g (Fields.field k v rest) = g v + over_values g rest

on_stack-extend_keys :
    (g : Value → ℕ) (fs : Fields) (s : List Value)
    → on_stack g (extend_keys fs s) ≡ over_keys g fs + on_stack g s
on_stack-extend_keys g Fields.end s = omega arith
on_stack-extend_keys g (Fields.field k v rest) s =
    omega (arith, on_stack-extend_keys g rest (Value.text k ∷ s))

on_stack-extend_values :
    (g : Value → ℕ) (fs : Fields) (s : List Value)
    → on_stack g (extend_values fs s) ≡ over_values g fs + on_stack g s
on_stack-extend_values g Fields.end s = omega arith
on_stack-extend_values g (Fields.field k v rest) s =
    omega (arith, on_stack-extend_values g rest (v ∷ s))

rounds_over : (fs : Fields) → over_values rounds fs + over_keys rounds fs ≡ rounds_fields fs
unfolding rounds
rounds_over Fields.end = omega arith
rounds_over (Fields.field k v rest) = omega (arith, rounds_over rest)

characters_over :
    (fs : Fields) → over_values characters fs + over_keys characters fs ≡ characters_fields fs
unfolding characters
characters_over Fields.end = omega arith
characters_over (Fields.field k v rest) = omega (arith, characters_over rest)

-- A round takes one from the rounds that are left, and moves characters from the stack to the total.
step_rounds :
    (v : Value) (s : List Value) (total : ℕ)
    → suc (on_stack rounds (size_step v s total).0) ≡ rounds v + on_stack rounds s
unfolding rounds
step_rounds Value.null s total = omega arith
step_rounds (Value.scalar t) s total = omega arith
step_rounds (Value.text t) s total = omega arith
step_rounds (Value.dict fs) s total = omega (
  arith,
  on_stack-extend_values rounds fs (extend_keys fs s),
  on_stack-extend_keys rounds fs s,
  rounds_over fs,
)
step_rounds (Value.sequence vs) s total = omega (arith, rounds-extend_items vs s)

step_characters :
    (v : Value) (s : List Value) (total : ℕ)
    → (size_step v s total).1 + on_stack characters (size_step v s total).0
      ≡ total + (characters v + on_stack characters s)
unfolding characters
step_characters Value.null s total = omega arith
step_characters (Value.scalar t) s total = omega arith
step_characters (Value.text t) s total = omega arith
step_characters (Value.dict fs) s total = omega (
  arith,
  on_stack-extend_values characters fs (extend_keys fs s),
  on_stack-extend_keys characters fs s,
  characters_over fs,
)
step_characters (Value.sequence vs) s total = omega (arith, characters-extend_items vs s)

size_loop_lem :
    (fuel : ℕ) (stack : List Value) (total : ℕ)
    → on_stack rounds stack < fuel
    → size_loop fuel stack total ≡ some (total + on_stack characters stack)
unfolding size_loop
size_loop_lem zero stack total h = absurd (omega arith)
size_loop_lem (suc fuel) [] total h = ap some (omega arith)
size_loop_lem (suc fuel) (v ∷ stack) total h =
    size_loop_lem fuel (size_step v stack total).0 (size_step v stack total).1
      (omega (arith, step_rounds v stack total))
    ∙ ap some (step_characters v stack total)

size_loop-characters :
    (payload : Fields) (fuel : ℕ)
    → rounds (Value.dict payload) < fuel
    → size_loop fuel (Value.dict payload ∷ []) 0 ≡ some (characters_fields payload)
unfolding characters
size_loop-characters payload fuel h =
    size_loop_lem fuel (Value.dict payload ∷ []) 0 (omega arith) ∙ ap some (omega arith)

-- The loop over the payload's stack ends, on fuel for one round per value and per key and one more,
-- with the number of characters of all texts, keys and scalars in the payload; so does the
-- payload's size.
pub size_loop-payload_size :
    (payload : Fields) (fuel : ℕ)
    → rounds (Value.dict payload) < fuel
    → (size_loop fuel (Value.dict payload ∷ []) 0 ≡ some (characters_fields payload))
      × (payload_size payload ≡ characters_fields payload)
unfolding payload_size
size_loop-payload_size payload fuel h = (
  size_loop-characters payload fuel h,
  ap (or_else 0) (size_loop-characters payload (suc (rounds (Value.dict payload))) (omega arith)),
)
