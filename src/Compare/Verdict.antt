-- ===== src/Compare/Verdict.antt =====
-- The sides, the verdict on a pair of sides, and the reasons why there is none (compare/verdict.rs).
use remote_merge.Prelude.{List, Eq}
use remote_merge.OpFailure.{OpFailure}

-- `ref` is the side of --ref, `target` the only side that a rollback compares.
pub data Role : Type 0 where
  left right ref target : Role

Role-discrete : Discrete Role
Role-discrete = hlevel

instance unfoldable pub role_eq : Eq Role
unfolding Role-discrete
role_eq = record { dec = Role-discrete }

pub data Present : Type 0 where
  first second : Present

pub record SideFailure : Type 0 where
  pub role : Role
  pub failure : OpFailure

pub data Undecidable : Type 0 where
  unreadable_name : Undecidable
  not_regular_file : List Role → Undecidable
  unfollowable_link : List Role → Undecidable
  read_failed : List SideFailure → Undecidable

pub data Verdict : Type 0 where
  both_absent : Verdict
  undecidable : Undecidable → Verdict
  one_sided : Present → Verdict
  kind_differs : Verdict
  same : Verdict
  differs : Verdict

-- What the states of a pair decide. Pairs left to their contents wait for the hashes.
pub data Judgement : Type 0 where
  decided : Verdict → Judgement
  by_content : Judgement
