-- ===== src/Context/Summary/Examples.antt =====
-- A summary with three completed items, of which two are kept.
use turtlemap.Prelude.{◌≡◌, refl, List, [], ◌∷◌, String}
use turtlemap.Context.Summary.{
  find_completed_section_start, find_next_summary_section_start, collect_blocks,
  trim_markdown_list_items, trim_completed_summary_items,
}
use turtlemap.Context.Summary.Trim.{IsTrimmed, trim-IsTrimmed}
use turtlemap.Context.Summary.Local.{IsLocal, trim_completed-IsLocal}
use turtlemap.Prelude.Text.{strip}

abbrev summary : List String
summary =
    "# Summary" ∷ "### Completed" ∷ "- first" ∷ "- second" ∷ "  with a detail" ∷ "- third"
    ∷ "### Open" ∷ "- fourth" ∷ []

trims_to_two :
    trim_completed_summary_items 2 summary
    ≡ "# Summary" ∷ "### Completed" ∷ "- second" ∷ "  with a detail" ∷ "- third" ∷ "### Open"
      ∷ "- fourth" ∷ []
unfolding trim_completed_summary_items find_completed_section_start find_next_summary_section_start
    collect_blocks trim_markdown_list_items strip
trims_to_two = refl

trim-IsTrimmed_example : IsTrimmed 2 summary (trim_markdown_list_items 2 summary)
trim-IsTrimmed_example = trim-IsTrimmed 1 summary

trim_completed-IsLocal_example : IsLocal 2 summary (trim_completed_summary_items 2 summary)
trim_completed-IsLocal_example = trim_completed-IsLocal 1 summary
