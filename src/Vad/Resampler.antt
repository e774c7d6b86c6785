-- ===== src/Vad/Resampler.antt =====
-- AntiAliasFilter and StreamingResampler of web-vad/src/lib.rs, and the length check of
-- `process_input`. The filter's coefficients, which are made with sine and cosine, are given.
pub mod Filter
pub mod Rounds
mod Examples
use voice_elf.Prelude.{
  ℕ, zero, suc, ◌+◌, ◌-◌, ◌%◌, min, Bool, true, false, ◌||◌, if◌then◌else◌, ◌==◌, ltb, List, [],
  ◌∷◌, ◌++◌, length, get_or, set, drop, map, Option, none, some,
}
use voice_elf.Prelude.Float.{Float, Floats}

pub record AntiAliasFilter (R : Type 0) : Type 0 where
  pub coefficients : List R
  pub history : List R
  pub cursor : ℕ

module _ {R : Type 0} (f : Float R) where
  abbrev pub zero_of : R
  zero_of = f.lit 0 0

  -- The loop over the coefficients, with `history_index` and the output so far.
  unfoldable pub taps : List R → List R → ℕ → R → R
  taps [] history history_index output = output
  taps (c ∷ cs) history history_index output =
      taps cs history (if history_index == 0 then length history - 1 else history_index - 1)
        (f.add output (f.mul c (get_or history history_index zero_of)))

  unfoldable pub filter_sample : AntiAliasFilter R → R → AntiAliasFilter R × R
  filter_sample a sample =
      let history = set a.history a.cursor sample in
      (
        record a { history = history; cursor = (a.cursor + 1) % length history },
        taps a.coefficients history a.cursor zero_of,
      )

  unfoldable pub reset_filter : AntiAliasFilter R → AntiAliasFilter R
  reset_filter a = record a { history = map (λ x. zero_of) a.history; cursor = 0 }

  unfoldable pub filter_all : AntiAliasFilter R → List R → AntiAliasFilter R × List R
  filter_all a [] = (a, [])
  filter_all a (x ∷ xs) =
      let first = filter_sample a x in
      let rest = filter_all first.0 xs in (rest.0, first.1 ∷ rest.1)

pub record StreamingResampler (F32 F64 : Type 0) : Type 0 where
  pub anti_alias : AntiAliasFilter F32
  pub source : List F32
  pub position : F64
  pub ratio : F64

module _ {F32 F64 : Type 0} (fl : Floats F32 F64) where
  abbrev pub one : F64
  one = fl.f64.lit 1 0

  -- Between `source[left]` and `source[left + 1]`.
  abbrev pub interpolate : List F32 → F64 → F32
  interpolate source position =
      let left = fl.f64.floor_usize position in
      let fraction = fl.narrow (fl.f64.sub position (fl.f64.of_ℕ left)) in
      let a = get_or source left (fl.f32.lit 0 0) in
      let b = get_or source (left + 1) (fl.f32.lit 0 0) in
      fl.f32.add a (fl.f32.mul (fl.f32.sub b a) fraction)

  abbrev pub put_first : F32 → Option (F64 × List F32) → Option (F64 × List F32)
  put_first x none = none
  put_first x (some (position, xs)) = some (position, x ∷ xs)

  -- The loop over the source, with at most `fuel` rounds: `none` if it has not ended by then.
  unfoldable pub resample : ℕ → List F32 → F64 → F64 → Option (F64 × List F32)
  resample zero source ratio position = none
  resample (suc fuel) source ratio position =
      let rest =
        put_first (interpolate source position)
          (resample fuel source ratio (fl.f64.add position ratio)) in
      if fl.f64.lt (fl.f64.add position one) (fl.f64.of_ℕ (length source))
      then rest
      else some (position, [])

  -- What is consumed leaves the source.
  abbrev pub drain :
      StreamingResampler F32 F64
      → AntiAliasFilter F32
      → List F32
      → Option (F64 × List F32)
      → Option (StreamingResampler F32 F64 × List F32)
  drain r filter source none = none
  drain r filter source (some (position, output)) =
      let consumed = min (fl.f64.floor_usize position) (length source) in
      some (
        record r {
          anti_alias = filter;
          source = drop consumed source;
          position = fl.f64.sub position (fl.f64.of_ℕ consumed);
        },
        output,
      )

  unfoldable pub process_samples :
      ℕ → StreamingResampler F32 F64 → List F32 → Option (StreamingResampler F32 F64 × List F32)
  process_samples fuel r input =
      let filtered = filter_all fl.f32 r.anti_alias input in
      let source = r.source ++ filtered.1 in
      drain r filtered.0 source (resample fuel source r.ratio r.position)

  unfoldable pub reset_resampler : StreamingResampler F32 F64 → StreamingResampler F32 F64
  reset_resampler r = record r {
    anti_alias = reset_filter fl.f32 r.anti_alias;
    source = [];
    position = fl.f64.lit 0 0;
  }
