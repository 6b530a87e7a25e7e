-- ===== src/Workloads/Tests.antt =====
-- Runs of the quality check's parser, and its theorem at a concrete answer.
use newchanges.Base.{ℕ, ◌≡◌, refl, true, false, none, some}
use newchanges.Base.Sample.{nat_float, ℕ-IsOrdered}
use newchanges.Base.Text.{contains, lower, strip}
use newchanges.Orchestrator.Classification.{Value, Fields}
use newchanges.Workloads.Quality.{QualityVerdict, Reader, decode, parse_quality_response}
use newchanges.Workloads.Quality.Verdict.{IsInUnit}
use newchanges.Workloads.Quality.Words.{measured, stated, parse_quality_response-stated}

-- {"verdict": "ok", "confidence": 140}
abbrev answer : Fields
answer =
    Fields.field "verdict" (Value.text "ok")
      (Fields.field "confidence" (Value.scalar "140") Fields.end)

-- It reads one text, the object above.
abbrev reader : Reader ℕ
reader = record {
  loads = λ s. elim (contains "{}" s) [ true ↦ some (Value.dict answer) | false ↦ none ];
  show = λ v. "140";
  to_float = λ v. some 140;
  unit = 100;
}

-- The object is found between other words, and the confidence is cut to 1.0.
fenced : (parse_quality_response reader "Result: {} as asked").confidence ≡ some 100
unfolding parse_quality_response contains
fenced = refl

fenced_verdict : (parse_quality_response reader "Result: {} as asked").verdict ≡ QualityVerdict.pass
unfolding parse_quality_response contains
fenced_verdict = refl

-- A crack that is reported in words, by an answer that says what it does not do.
cracked : (parse_quality_response reader "Crack found, does not pass").verdict ≡ QualityVerdict.pass
unfolding parse_quality_response contains
cracked = refl

-- A part of a longer word is enough.
compass_passes : stated reader "compass housing cracked" ≡ QualityVerdict.pass
unfolding contains lower strip decode
compass_passes = refl

parse_quality_response-stated_example :
    IsInUnit reader (parse_quality_response reader "{}").confidence
    × ((parse_quality_response reader "{}").confidence ≡ measured reader "{}")
    × ((parse_quality_response reader "{}").verdict ≡ stated reader "{}")
    × ((parse_quality_response reader "{}").raw_response ≡ "{}")
parse_quality_response-stated_example = parse_quality_response-stated reader ℕ-IsOrdered refl "{}"
