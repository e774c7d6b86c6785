-- ===== src/Pipeline/Latency/Stages.antt =====
-- The reports of an utterance whose stages were marked in order.
use voice_elf.Prelude.{ℕ, ◌+◌, ◌≤◌, ◌≡◌, some}
use voice_elf.Pipeline.Latency.{
  Mark, LatencyReport, report_of, new, mark_vad_complete, mark_stt_complete,
  mark_translation_complete, mark_tts_complete, final_report, text_report, transcription_report,
  queued_report,
}

-- The stages add up to the total, but for less than a millisecond lost to rounding in three of them.
pub record AddsUp (r : LatencyReport) : Type 0 where
  pub at_most : r.vad_ms + r.stt_ms + r.translation_ms + r.tts_ms ≤ r.total_ms
  pub nearly : r.total_ms ≤ r.vad_ms + r.stt_ms + r.translation_ms + r.tts_ms + 3

-- The four reports of an utterance, each made when its stage is complete.
pub record Reports (start t1 t2 t3 t4 : Mark) (n : ℕ) : Type 0 where
  pub queued :
      queued_report (mark_vad_complete (new start) t1) n ≡ some (report_of start t1 t1 t1 t1 n)
  pub transcription :
      transcription_report (mark_stt_complete (mark_vad_complete (new start) t1) t2) n
      ≡ some (report_of start t1 t2 t2 t2 n)
  pub text :
      text_report
        (mark_translation_complete (mark_stt_complete (mark_vad_complete (new start) t1) t2) t3)
        n
      ≡ some (report_of start t1 t2 t3 t3 n)
  pub final :
      final_report
        (mark_tts_complete
          (mark_translation_complete (mark_stt_complete (mark_vad_complete (new start) t1) t2) t3)
          t4)
        n
      ≡ some (report_of start t1 t2 t3 t4 n)
  pub queued_sum : AddsUp (report_of start t1 t1 t1 t1 n)
  pub transcription_sum : AddsUp (report_of start t1 t2 t2 t2 n)
  pub text_sum : AddsUp (report_of start t1 t2 t3 t3 n)
  pub final_sum : AddsUp (report_of start t1 t2 t3 t4 n)
