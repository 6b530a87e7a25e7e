-- ===== src/Workloads/Quality/Verdict.antt =====
-- What the parsed answer of a vision model can claim.
use mathlib.Core.Path.{subst}
use newchanges.Base.{
  ◌≡◌, ◌⊎◌, inl, inr, refl, arith, sym, ap, Bool, true, false, not, ◌&&◌, ◌||◌, Option, none, some,
  String, str_eq, if◌then◌else◌, Bool-cases,
}
use newchanges.Base.Float.{Float, IsOrdered, ◌≼◌}
use newchanges.Base.Text.{lower, strip, contains}
use newchanges.Orchestrator.Classification.{Value, Fields}
use newchanges.Workloads.Quality.{
  QualityVerdict, QualityResult, Reader, present, get_field, verdict_of, raw_verdict, clamp,
  structured_result, heuristic_result, bare_result, decode, decoded_result, parse_quality_response,
}

module _ {ℓ} {F : Type ℓ} ⦃f : Float F⦄ (reader : Reader F) where
  -- A confidence that lies between 0.0 and 1.0, or none.
  abbrev pub IsInUnit : Option F → Type 0
  IsInUnit none = Unit
  IsInUnit (some x) = (f.nought ≼ x) × (x ≼ reader.unit)

  -- A PASS that the answer states itself, in a field or in words.
  abbrev pub IsStated : String → QualityVerdict → Type 0
  IsStated content QualityVerdict.pass =
      ((d : Fields) × (decode reader (strip content) ≡ some (Value.dict d))
        × (verdict_of (raw_verdict reader d) ≡ QualityVerdict.pass))
      ⊎ ((contains "pass" (lower (strip content)) ≡ true)
          × (contains "fail" (lower (strip content)) ≡ false))
  IsStated content QualityVerdict.fail = Unit
  IsStated content QualityVerdict.inconclusive = Unit

  clamp_bounds :
      IsOrdered F
      → f.nought ≼ reader.unit
      → (x : F) → (f.nought ≼ clamp reader x) × (clamp reader x ≼ reader.unit)
  clamp_bounds o h x = ground (
    arith,
    o.lt-eq-not-le x reader.unit,
    o.lt-eq-not-le f.nought x,
    o.lt-eq-not-le f.nought reader.unit,
    o.le_total f.nought x,
    o.le_total x reader.unit,
    o.le_total f.nought reader.unit,
    o.le_refl f.nought,
    o.le_refl reader.unit,
  )

  structured_unit :
      IsOrdered F
      → f.nought ≼ reader.unit
      → (d : Fields) (content : String) → IsInUnit (structured_result reader d content).confidence
  unfolding structured_result
  structured_unit o h d content = given (present (get_field "confidence" d))
    where
      float_unit :
          (x : Option F) → IsInUnit (elim x [ none ↦ none | some y ↦ some (clamp reader y) ])
      float_unit none = tt
      float_unit (some y) = clamp_bounds o h y

      given :
          (v : Option Value)
          → IsInUnit (elim v [
            | none ↦ none
            | some w ↦ elim (reader.to_float w) [ none ↦ none | some y ↦ some (clamp reader y) ]
          ])
      given none = tt
      given (some w) = float_unit (reader.to_float w)

  -- What both theorems say of a result.
  abbrev IsSound : String → QualityResult F → Type 0
  IsSound content q =
      IsInUnit q.confidence × IsStated content q.verdict × (q.raw_response ≡ content)

  heuristic-IsSound :
      (content : String) → IsSound content (heuristic_result reader (lower (strip content)) content)
  unfolding heuristic_result
  heuristic-IsSound content =
      elim (Bool-cases (
        contains "pass" (lower (strip content)) && not (contains "fail" (lower (strip content))))) [
          | inl e ↦ rw e (tt, inr (ground arith), refl)
          | inr e ↦
              rw e
                (elim (Bool-cases (
                  contains "fail" (lower (strip content))
                  || (contains "defect" (lower (strip content))
                      || (contains "crack" (lower (strip content))
                          || contains "scratch" (lower (strip content)))))) [
                            | inl g ↦ rw g (tt, tt, refl)
                            | inr g ↦ rw g (tt, tt, refl)
                          ])
        ]

  structured-IsStated :
      (content : String) (d : Fields)
      → decode reader (strip content) ≡ some (Value.dict d)
      → IsStated content (structured_result reader d content).verdict
  unfolding structured_result
  structured-IsStated content d e = stated (verdict_of (raw_verdict reader d)) refl
    where
      stated : (v : QualityVerdict) → verdict_of (raw_verdict reader d) ≡ v → IsStated content v
      stated QualityVerdict.pass h = inl (d, e, h)
      stated QualityVerdict.fail h = tt
      stated QualityVerdict.inconclusive h = tt

  raw_lem :
      (d : Fields) (content : String) → (structured_result reader d content).raw_response ≡ content
  unfolding structured_result
  raw_lem d content = refl

  module _ (o : IsOrdered F) (h : f.nought ≼ reader.unit) where
    decoded-IsSound :
        (content : String) (v : Option Value)
        → decode reader (strip content) ≡ v
        → IsSound content (decoded_result reader content v)
    decoded-IsSound content (some (Value.dict d)) e =
        (structured_unit o h d content, structured-IsStated content d e, raw_lem d content)
    decoded-IsSound content (some Value.null) e = heuristic-IsSound content
    decoded-IsSound content (some (Value.scalar s)) e = heuristic-IsSound content
    decoded-IsSound content (some (Value.text s)) e = heuristic-IsSound content
    decoded-IsSound content (some (Value.sequence v)) e = heuristic-IsSound content
    decoded-IsSound content none e = heuristic-IsSound content

  pub parse_quality_response_sound :
      IsOrdered F
      → f.nought ≼ reader.unit
      → (content : String)
      → IsInUnit (parse_quality_response reader content).confidence
        × IsStated content (parse_quality_response reader content).verdict
        × ((parse_quality_response reader content).raw_response ≡ content)
  unfolding parse_quality_response
  parse_quality_response_sound o h content = elim (Bool-cases (str_eq (strip content) "")) [
    | inl e ↦ subst (IsSound content) (sym (ap pick e)) (tt, tt, refl)
    | inr e ↦
        subst (IsSound content) (sym (ap pick e))
          (decoded-IsSound o h content (decode reader (strip content)) refl)
  ]
    where
      pick : Bool → QualityResult F
      pick b =
          if b
          then bare_result reader QualityVerdict.inconclusive none content
          else decoded_result reader content (decode reader (strip content))
