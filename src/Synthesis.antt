-- ===== src/Synthesis.antt =====
-- src/research/synthesis.rs: the typed answer of a run.
use web_agent_research.Prelude.{ℕ, Option, none, List, Text}
use web_agent_research.Runner.{SynthesisSize}

pub data Support : Type 0 where
  unchecked : Support
  unsupported : Support
  partly : Support
  exact : Support

pub record Citation : Type 0 where
  pub url : Text
  pub title : Option Text
  pub support : Support
  pub quote : Option Text

-- `Citation::new`
abbrev pub new : Text → Option Text → Citation
new url title = record { url = url; title = title; support = unchecked; quote = none }

pub record Point : Type 0 where
  pub text : Text
  pub links : List Text
  pub quote : Option Text
  pub support : Support

pub record ThemeSection : Type 0 where
  pub title : Text
  pub points : List Point
  pub citations : List Citation

pub record Verification : Type 0 where
  pub bullets : ℕ
  pub cited : ℕ
  pub exact_bullets : ℕ
  pub partial_bullets : ℕ
  pub unsupported_bullets : ℕ

-- `Verification::default`
abbrev pub no_verification : Verification
no_verification = record {
  bullets = 0;
  cited = 0;
  exact_bullets = 0;
  partial_bullets = 0;
  unsupported_bullets = 0;
}

pub record Synthesis : Type 0 where
  pub size : SynthesisSize
  pub summary : Text
  pub themes : List ThemeSection
  pub citations : List Citation
  pub verification : Verification
