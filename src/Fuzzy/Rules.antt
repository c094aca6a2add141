-- ===== src/Fuzzy/Rules.antt =====
-- fuzzy/rules.py: the 27 rules and the output ramps. The source's labels are constructors.
use empyrean_v2_backend.Base.{ℕ}

pub data TempTerm : Type 0 where
  low medium high : TempTerm

pub data HumTerm : Type 0 where
  dry humid wet : HumTerm

pub data PmTerm : Type 0 where
  low medium high : PmTerm

pub data Consequent : Type 0 where
  good moderate usg unhealthy very_unhealthy : Consequent

-- The ends of a consequent's output ramp, on the scale from 0 to 100.
pub record Ramp : Type 0 where
  pub lo : ℕ
  pub hi : ℕ

-- CONSEQUENTS
abbrev pub consequents : Consequent → Ramp
consequents good = record { lo = 0; hi = 40 }
consequents moderate = record { lo = 30; hi = 60 }
consequents usg = record { lo = 50; hi = 75 }
consequents unhealthy = record { lo = 65; hi = 90 }
consequents very_unhealthy = record { lo = 85; hi = 100 }

-- RULE_TABLE
unfoldable pub rule_table : TempTerm → HumTerm → PmTerm → Consequent
rule_table TempTerm.low dry PmTerm.low = moderate
rule_table TempTerm.low humid PmTerm.low = good
rule_table TempTerm.low wet PmTerm.low = good
rule_table TempTerm.medium dry PmTerm.low = moderate
rule_table TempTerm.medium humid PmTerm.low = good
rule_table TempTerm.medium wet PmTerm.low = good
rule_table TempTerm.high dry PmTerm.low = moderate
rule_table TempTerm.high humid PmTerm.low = moderate
rule_table TempTerm.high wet PmTerm.low = moderate
rule_table TempTerm.low dry PmTerm.medium = usg
rule_table TempTerm.low humid PmTerm.medium = moderate
rule_table TempTerm.low wet PmTerm.medium = moderate
rule_table TempTerm.medium dry PmTerm.medium = usg
rule_table TempTerm.medium humid PmTerm.medium = moderate
rule_table TempTerm.medium wet PmTerm.medium = moderate
rule_table TempTerm.high dry PmTerm.medium = usg
rule_table TempTerm.high humid PmTerm.medium = usg
rule_table TempTerm.high wet PmTerm.medium = usg
rule_table TempTerm.low dry PmTerm.high = unhealthy
rule_table TempTerm.low humid PmTerm.high = unhealthy
rule_table TempTerm.low wet PmTerm.high = unhealthy
rule_table TempTerm.medium dry PmTerm.high = unhealthy
rule_table TempTerm.medium humid PmTerm.high = unhealthy
rule_table TempTerm.medium wet PmTerm.high = unhealthy
rule_table TempTerm.high dry PmTerm.high = very_unhealthy
rule_table TempTerm.high humid PmTerm.high = unhealthy
rule_table TempTerm.high wet PmTerm.high = unhealthy

unfoldable pub consequent_for : TempTerm → HumTerm → PmTerm → Consequent
unfolding rule_table
consequent_for t_term h_term p_term = rule_table t_term h_term p_term
