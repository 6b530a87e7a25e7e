-- ===== src/Workloads/Quality/Words.antt =====
-- When the parser gives PASS and when FAIL, by the words of the answer.
use newchanges.Base.{
  ◌≡◌, inl, inr, refl, arith, Bool, false, not, ◌&&◌, ◌||◌, List, [], ◌∷◌, Option, none, some,
  String, str_eq, any, if◌then◌else◌, Bool-cases,
}
use newchanges.Base.Float.{Float, IsOrdered, ◌≼◌, min, max}
use newchanges.Base.Text.{upper, lower, strip, contains}
use newchanges.Orchestrator.Classification.{Value, Fields}
use newchanges.Workloads.Quality.{
  QualityVerdict, Reader, get_field, verdict_of, value_text, present, clamp, structured_result,
  heuristic_result, decode, decoded_result, parse_quality_response,
}
use newchanges.Workloads.Quality.Verdict.{IsInUnit, parse_quality_response_sound}

abbrev passing : List String
passing = "PASS" ∷ "PASSED" ∷ "OK" ∷ []

abbrev failing : List String
failing = "FAIL" ∷ "FAILED" ∷ "DEFECT" ∷ "REJECT" ∷ []

module _ {ℓ} {F : Type ℓ} ⦃f : Float F⦄ (reader : Reader F) where
  abbrev spells : List String → Option Value → Bool
  spells words none = false
  spells words (some v) = any (λ w. str_eq (upper (strip (value_text reader v))) w) words

  -- The object has a verdict whose text is one of the words, without regard to case and the space
  -- around it.
  abbrev says : List String → Fields → Bool
  says words d = spells words (get_field "verdict" d)

  -- The answer holds a word somewhere, as a part of a longer word too.
  abbrev holds : String → String → Bool
  holds word content = contains word (lower (strip content))

  abbrev words_pass : String → Bool
  words_pass content = holds "pass" content && not (holds "fail" content)

  abbrev words_fail : String → Bool
  words_fail content =
      holds "fail" content
      || (not (holds "pass" content)
          && (holds "defect" content || (holds "crack" content || holds "scratch" content)))

  -- The object that is read decides where there is one, else the words of the answer.
  abbrev decides : List String → Bool → Option Value → Bool
  decides words otherwise (some (Value.dict d)) = says words d
  decides words otherwise (some Value.null) = otherwise
  decides words otherwise (some (Value.scalar s)) = otherwise
  decides words otherwise (some (Value.text s)) = otherwise
  decides words otherwise (some (Value.sequence v)) = otherwise
  decides words otherwise none = otherwise

  abbrev is_passing : String → Bool
  is_passing content =
      not (str_eq (strip content) "")
      && decides passing (words_pass content) (decode reader (strip content))

  abbrev is_failing : String → Bool
  is_failing content =
      not (str_eq (strip content) "")
      && decides failing (words_fail content) (decode reader (strip content))

  abbrev verdict_by : Bool → Bool → QualityVerdict
  verdict_by passes fails =
      if passes
      then QualityVerdict.pass
      else if fails
      then QualityVerdict.fail
      else QualityVerdict.inconclusive

  -- The verdict that the answer states.
  abbrev pub stated : String → QualityVerdict
  stated content = verdict_by (is_passing content) (is_failing content)

  -- A number of an object's field, cut to the range from 0.0 to 1.0.
  abbrev bounded : Option F → Option F
  bounded none = none
  bounded (some x) = some (max f.nought (min reader.unit x))

  abbrev number_of : Option Value → Option F
  number_of none = none
  number_of (some Value.null) = none
  number_of (some (Value.scalar s)) = reader.to_float (Value.scalar s)
  number_of (some (Value.text s)) = reader.to_float (Value.text s)
  number_of (some (Value.dict d)) = reader.to_float (Value.dict d)
  number_of (some (Value.sequence v)) = reader.to_float (Value.sequence v)

  abbrev measured_by : Option Value → Option F
  measured_by (some (Value.dict d)) = bounded (number_of (get_field "confidence" d))
  measured_by (some Value.null) = none
  measured_by (some (Value.scalar s)) = none
  measured_by (some (Value.text s)) = none
  measured_by (some (Value.sequence v)) = none
  measured_by none = none

  -- The confidence that the answer gives.
  abbrev pub measured : String → Option F
  measured content =
      if str_eq (strip content) "" then none else measured_by (decode reader (strip content))

  heuristic_verdict :
      (content : String)
      → (heuristic_result reader (lower (strip content)) content).verdict
        ≡ verdict_by (words_pass content) (words_fail content)
  unfolding heuristic_result
  heuristic_verdict content = elim (Bool-cases (holds "pass" content)) [
    | inl p ↦ elim (Bool-cases (holds "fail" content)) [
      | inl q ↦ rw (p, q) refl
      | inr q ↦ rw (p, q) refl
    ]
    | inr p ↦
        elim (Bool-cases (
          holds "fail" content
          || (holds "defect" content || (holds "crack" content || holds "scratch" content)))) [
            | inl q ↦ rw (p, q) refl
            | inr q ↦ rw (p, q) refl
          ]
  ]

  structured_verdict :
      (d : Fields) (content : String)
      → (structured_result reader d content).verdict ≡ verdict_by (says passing d) (says failing d)
  unfolding structured_result upper strip
  structured_verdict d content = by_field (get_field "verdict" d)
    where
      by_field :
          (o : Option Value)
          → verdict_of (upper (strip (elim o [ none ↦ "" | some v ↦ value_text reader v ])))
            ≡ verdict_by (spells passing o) (spells failing o)
      by_field none = refl
      by_field (some v) = refl

  heuristic_confidence :
      (text content : String) → (heuristic_result reader text content).confidence ≡ none
  unfolding heuristic_result
  heuristic_confidence text content = ground arith

  structured_confidence :
      (d : Fields) (content : String)
      → (structured_result reader d content).confidence
        ≡ bounded (number_of (get_field "confidence" d))
  unfolding structured_result
  structured_confidence d content = by_field (get_field "confidence" d)
    where
      by_number :
          (x : Option F) → (elim x [ none ↦ none | some y ↦ some (clamp reader y) ]) ≡ bounded x
      by_number none = refl
      by_number (some y) = refl

      by_field :
          (o : Option Value)
          → (elim (present o) [
            | none ↦ none
            | some w ↦ elim (reader.to_float w) [ none ↦ none | some y ↦ some (clamp reader y) ]
          ])
            ≡ bounded (number_of o)
      by_field none = refl
      by_field (some Value.null) = refl
      by_field (some (Value.scalar s)) = by_number (reader.to_float (Value.scalar s))
      by_field (some (Value.text s)) = by_number (reader.to_float (Value.text s))
      by_field (some (Value.dict e)) = by_number (reader.to_float (Value.dict e))
      by_field (some (Value.sequence v)) = by_number (reader.to_float (Value.sequence v))

  decoded_confidence :
      (content : String) (v : Option Value)
      → (decoded_result reader content v).confidence ≡ measured_by v
  decoded_confidence content (some (Value.dict d)) = structured_confidence d content
  decoded_confidence content (some Value.null) = heuristic_confidence _ content
  decoded_confidence content (some (Value.scalar s)) = heuristic_confidence _ content
  decoded_confidence content (some (Value.text s)) = heuristic_confidence _ content
  decoded_confidence content (some (Value.sequence v)) = heuristic_confidence _ content
  decoded_confidence content none = heuristic_confidence _ content

  parse_confidence :
      (content : String) → (parse_quality_response reader content).confidence ≡ measured content
  unfolding parse_quality_response
  parse_confidence content = elim (Bool-cases (str_eq (strip content) "")) [
    | inl e ↦ rw e refl
    | inr e ↦ rw e (decoded_confidence content (decode reader (strip content)))
  ]

  decoded_verdict :
      (content : String) (v : Option Value)
      → (decoded_result reader content v).verdict
        ≡ verdict_by
            (decides passing (words_pass content) v)
            (decides failing (words_fail content) v)
  decoded_verdict content (some (Value.dict d)) = structured_verdict d content
  decoded_verdict content (some Value.null) = heuristic_verdict content
  decoded_verdict content (some (Value.scalar s)) = heuristic_verdict content
  decoded_verdict content (some (Value.text s)) = heuristic_verdict content
  decoded_verdict content (some (Value.sequence v)) = heuristic_verdict content
  decoded_verdict content none = heuristic_verdict content

  parse_verdict :
      (content : String) → (parse_quality_response reader content).verdict ≡ stated content
  unfolding parse_quality_response
  parse_verdict content = elim (Bool-cases (str_eq (strip content) "")) [
    | inl e ↦ rw e refl
    | inr e ↦ rw e (decoded_verdict content (decode reader (strip content)))
  ]

  -- Over ordered floats with 0.0 at most 1.0: a parsed answer has a confidence from 0.0 to 1.0, or
  -- none, and keeps the answer's text. Its confidence is the number of the confidence field of the
  -- JSON object that is read, cut to that range, and there is none without such a number. Its
  -- verdict is PASS where that object's verdict is PASS, PASSED or OK, without regard to case and
  -- the space around it, FAIL where it is FAIL, FAILED, DEFECT or REJECT, and else INCONCLUSIVE.
  -- Where no object is read from an answer that is not blank, it is PASS for an answer with the
  -- letters pass and not fail, even inside longer words, FAIL for other answers with fail, defect,
  -- crack or scratch, and else INCONCLUSIVE; it is INCONCLUSIVE for a blank answer.
  pub parse_quality_response-stated :
      IsOrdered F
      → f.nought ≼ reader.unit
      → (content : String)
      → IsInUnit reader (parse_quality_response reader content).confidence
        × ((parse_quality_response reader content).confidence ≡ measured content)
        × ((parse_quality_response reader content).verdict ≡ stated content)
        × ((parse_quality_response reader content).raw_response ≡ content)
  parse_quality_response-stated o h content =
      let s = parse_quality_response_sound reader o h content in
      (s.0, parse_confidence content, parse_verdict content, s.2)
