-- ===== src/Pipeline/Latency.antt =====
-- `LatencyObserver` of server/src/pipeline/latency.rs. An instant is a number of nanoseconds; a mark is
-- an instant and the wall clock in milliseconds. A report without its mark panics: `none`.
pub mod Stages
mod Examples
use voice_elf.Prelude.{ℕ, ◌+◌, ◌-◌, ◌*◌, ◌/◌, ◌%◌, Option, none, some}

abbrev pub u64 : ℕ → ℕ
u64 n = n % 18446744073709551616

abbrev pub Mark : Type 0
Mark = ℕ × ℕ

pub record LatencyObserver : Type 0 where
  pub start : Mark
  pub t1 : Option Mark
  pub t2 : Option Mark
  pub t3 : Option Mark
  pub t4 : Option Mark

pub record LatencyReport : Type 0 where
  pub vad_ms : ℕ
  pub stt_ms : ℕ
  pub translation_ms : ℕ
  pub tts_ms : ℕ
  pub total_ms : ℕ
  pub audio_ms : ℕ
  pub t0_unix_ms : ℕ
  pub t1_unix_ms : ℕ
  pub t2_unix_ms : ℕ
  pub t3_unix_ms : ℕ
  pub t4_unix_ms : ℕ

unfoldable pub new : Mark → LatencyObserver
new start = record { start = start; t1 = none; t2 = none; t3 = none; t4 = none }

unfoldable pub mark_vad_complete : LatencyObserver → Mark → LatencyObserver
mark_vad_complete o now = record o { t1 = some now }

unfoldable pub mark_stt_complete : LatencyObserver → Mark → LatencyObserver
mark_stt_complete o now = record o { t2 = some now }

unfoldable pub mark_translation_complete : LatencyObserver → Mark → LatencyObserver
mark_translation_complete o now = record o { t3 = some now }

unfoldable pub mark_tts_complete : LatencyObserver → Mark → LatencyObserver
mark_tts_complete o now = record o { t4 = some now }

-- `saturating_duration_since`, in whole milliseconds.
abbrev pub elapsed_ms : ℕ → ℕ → ℕ
elapsed_ms start end_at = u64 ((end_at - start) / 1000000)

abbrev pub unwrap_or : Option Mark → Mark → Mark
unwrap_or none m = m
unwrap_or (some m) _ = m

abbrev pub report_of : Mark → Mark → Mark → Mark → Mark → ℕ → LatencyReport
report_of start t1 t2 t3 t4 input_samples = record {
  vad_ms = elapsed_ms start.0 t1.0;
  stt_ms = elapsed_ms t1.0 t2.0;
  translation_ms = elapsed_ms t2.0 t3.0;
  tts_ms = elapsed_ms t3.0 t4.0;
  total_ms = elapsed_ms start.0 t4.0;
  audio_ms = u64 (input_samples * 1000) / 16000;
  t0_unix_ms = start.1;
  t1_unix_ms = t1.1;
  t2_unix_ms = t2.1;
  t3_unix_ms = t3.1;
  t4_unix_ms = t4.1;
}

abbrev pub with_marks : LatencyObserver → ℕ → Option Mark → Option Mark → Option LatencyReport
with_marks o input_samples none t4 = none
with_marks o input_samples (some t1) none = none
with_marks o input_samples (some t1) (some t4) =
    let t2 = unwrap_or o.t2 t1 in
    let t3 = unwrap_or o.t3 t2 in some (report_of o.start t1 t2 t3 t4 input_samples)

unfoldable pub report_with_t4 : LatencyObserver → ℕ → Option Mark → Option LatencyReport
report_with_t4 o input_samples t4 = with_marks o input_samples o.t1 t4

unfoldable pub final_report : LatencyObserver → ℕ → Option LatencyReport
final_report o input_samples = report_with_t4 o input_samples o.t4

unfoldable pub text_report : LatencyObserver → ℕ → Option LatencyReport
text_report o input_samples = report_with_t4 o input_samples o.t3

unfoldable pub transcription_report : LatencyObserver → ℕ → Option LatencyReport
transcription_report o input_samples = report_with_t4 o input_samples o.t2

unfoldable pub queued_report : LatencyObserver → ℕ → Option LatencyReport
queued_report o input_samples = report_with_t4 o input_samples o.t1
