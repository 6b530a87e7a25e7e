-- ===== src/Workloads/Quality.antt =====
-- app/workloads/quality_check.py: the parser of a vision model's answer. `json.loads`, `str` and
-- `float` of a value are arguments.
pub mod Verdict
pub mod Words
use Prim.Native.Char.{code}
use Prim.Native.String
use newchanges.Base.{
  ℕ, ◌==◌, Bool, true, false, not, ◌&&◌, ◌||◌, List, [], ◌∷◌, if◌then◌else◌, Option, none, some,
  String, str_eq, any,
}
use newchanges.Base.Float.{Float, min, max}
use newchanges.Base.Text.{upper, lower, strip, contains}
use newchanges.Orchestrator.Classification.{Value, Fields}

pub data QualityVerdict : Type 0 where
  pass fail inconclusive : QualityVerdict

pub record QualityResult {ℓ} (F : Type ℓ) : Type ℓ where
  pub verdict : QualityVerdict
  pub defect_type : Option String
  pub confidence : Option F
  pub raw_response : String

-- `json.loads`, where `none` is a `JSONDecodeError`; `str`; `float`, where `none` is a `ValueError`
-- or a `TypeError`; and the float 1.0.
pub record Reader {ℓ} (F : Type ℓ) : Type ℓ where
  pub loads : String → Option Value
  pub show : Value → String
  pub to_float : Value → Option F
  pub unit : F

-- `payload.get(key)`; of equal keys the decoder keeps the last
abbrev pub get_field : String → Fields → Option Value
get_field key Fields.end = none
get_field key (Fields.field k v rest) = elim (get_field key rest) [
  | some w ↦ some w
  | none ↦ if str_eq k key then some v else none
]

-- from the text's start to its last `}`; `none` where it has none
through_last_brace : String → Option String
through_last_brace String.[] = none
through_last_brace (String.◌∷◌ c s) = elim (through_last_brace s) [
  | some t ↦ some (String.◌∷◌ c t)
  | none ↦ if code c == 125 then some (String.◌∷◌ c String.[]) else none
]

-- `re.search(r"\{[\s\S]*\}", text)`: from the first `{` to the last `}` after it
brace_span : String → Option String
unfolding through_last_brace
brace_span String.[] = none
brace_span (String.◌∷◌ c s) =
    let later = brace_span s in
    if code c == 123
    then elim (through_last_brace s) [ none ↦ none | some t ↦ some (String.◌∷◌ c t) ]
    else later

abbrev one_of : List String → String → Bool
one_of names s = any (λ n. str_eq s n) names

abbrev pub verdict_of : String → QualityVerdict
verdict_of s =
    if one_of ("PASS" ∷ "PASSED" ∷ "OK" ∷ []) s
    then QualityVerdict.pass
    else if one_of ("FAIL" ∷ "FAILED" ∷ "DEFECT" ∷ "REJECT" ∷ []) s
    then QualityVerdict.fail
    else QualityVerdict.inconclusive

abbrev defect_named : String → Option String
defect_named s =
    if str_eq s ""
    then none
    else if one_of ("none" ∷ "null" ∷ "n/a" ∷ []) (lower s)
    then none
    else some s

-- `data.get(…)` where a value of `None` counts as absent
abbrev pub present : Option Value → Option Value
present none = none
present (some Value.null) = none
present (some (Value.scalar s)) = some (Value.scalar s)
present (some (Value.text s)) = some (Value.text s)
present (some (Value.dict d)) = some (Value.dict d)
present (some (Value.sequence v)) = some (Value.sequence v)

module _ {ℓ} {F : Type ℓ} ⦃f : Float F⦄ (reader : Reader F) where
  -- `str(value)`: a text is itself
  abbrev pub value_text : Value → String
  value_text (Value.text s) = s
  value_text Value.null = reader.show Value.null
  value_text (Value.scalar s) = reader.show (Value.scalar s)
  value_text (Value.dict d) = reader.show (Value.dict d)
  value_text (Value.sequence v) = reader.show (Value.sequence v)

  -- `str(data.get("verdict", "")).strip().upper()`
  abbrev pub raw_verdict : Fields → String
  raw_verdict d = upper (strip (elim (get_field "verdict" d) [ none ↦ "" | some v ↦ value_text v ]))

  -- `max(0.0, min(1.0, confidence))`
  abbrev pub clamp : F → F
  clamp x = max f.nought (min reader.unit x)

  -- the branch for a JSON object
  unfoldable pub structured_result : Fields → String → QualityResult F
  unfolding upper lower strip
  structured_result d content = record {
    verdict = verdict_of (raw_verdict d);
    defect_type = elim (present (get_field "defect_type" d)) [
      | none ↦ none
      | some v ↦ defect_named (strip (value_text v))
    ];
    confidence = elim (present (get_field "confidence" d)) [
      | none ↦ none
      | some v ↦ elim (reader.to_float v) [ none ↦ none | some x ↦ some (clamp x) ]
    ];
    raw_response = content;
  }

  abbrev pub bare_result : QualityVerdict → Option String → String → QualityResult F
  bare_result verdict defect content = record {
    verdict = verdict;
    defect_type = defect;
    confidence = none;
    raw_response = content;
  }

  -- the heuristic fallback, on the text in lower case
  unfoldable pub heuristic_result : String → String → QualityResult F
  unfolding contains
  heuristic_result text content =
      if contains "pass" text && not (contains "fail" text)
      then bare_result QualityVerdict.pass none content
      else if contains "fail" text
          || (contains "defect" text || (contains "crack" text || contains "scratch" text))
      then bare_result QualityVerdict.fail (some "detected_defect") content
      else bare_result QualityVerdict.inconclusive none content

  -- the two attempts to read JSON
  unfoldable pub decode : String → Option Value
  unfolding brace_span
  decode cleaned = elim (reader.loads cleaned) [
    | some v ↦ some v
    | none ↦ elim (brace_span cleaned) [ none ↦ none | some t ↦ reader.loads t ]
  ]

  -- the result for what the two attempts give
  abbrev pub decoded_result : String → Option Value → QualityResult F
  decoded_result content (some (Value.dict d)) = structured_result d content
  decoded_result content (some Value.null) = heuristic_result (lower (strip content)) content
  decoded_result content (some (Value.scalar s)) = heuristic_result (lower (strip content)) content
  decoded_result content (some (Value.text s)) = heuristic_result (lower (strip content)) content
  decoded_result content (some (Value.sequence v)) =
      heuristic_result (lower (strip content)) content
  decoded_result content none = heuristic_result (lower (strip content)) content

  unfoldable pub parse_quality_response : String → QualityResult F
  unfolding structured_result heuristic_result decode strip lower
  parse_quality_response content =
      if str_eq (strip content) ""
      then bare_result QualityVerdict.inconclusive none content
      else decoded_result content (decode (strip content))
