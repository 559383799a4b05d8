-- ===== src/Compare/Method.antt =====
-- How two regular files are compared, and how the verdict on two links joins the verdict on what
-- they lead to (compare/method.rs).
use remote_merge.Prelude.{Bool, true, false}
use remote_merge.Compare.Verdict.{
  Verdict, both_absent, undecidable, one_sided, kind_differs, same, differs,
}

pub data Method : Type 0 where
  metadata content : Method

pub data Command : Type 0 where
  status diff merge sync : Command

pub data Selection : Type 0 where
  named_file below_directory : Selection

unfoldable pub choose_method : Command → Bool → Selection → Method
choose_method diff _ _ = content
choose_method status true _ = content
choose_method merge true _ = content
choose_method sync true _ = content
choose_method merge false named_file = content
choose_method sync false named_file = content
choose_method merge false below_directory = metadata
choose_method sync false below_directory = metadata
choose_method status false _ = metadata

-- `link` is the verdict on the links themselves, `followed` the one on what they lead to.
unfoldable pub combine_link_pair : Verdict → Verdict → Verdict
combine_link_pair same same = same
combine_link_pair same both_absent = same
combine_link_pair same differs = differs
combine_link_pair same (one_sided _) = differs
combine_link_pair same kind_differs = differs
combine_link_pair same (undecidable why) = undecidable why
combine_link_pair differs (undecidable why) = undecidable why
combine_link_pair link followed = link
