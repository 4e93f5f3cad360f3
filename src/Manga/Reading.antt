-- ===== src/Manga/Reading.antt =====
-- src/manga/mapp.cpp: the page at which a chapter is opened, and what the report of its viewer does to it.
-- The pages to resume at, of the manga on the screen, are a map from the chapters' ids.
use shigoku.Common.{
  ℕ, Bytes, Option, some, none, List, Bool, bytes_eq, if◌then◌else◌, leb, ◌≡◌, ◌<◌, ◌≤◌, suc, arith,
  drop, bytes_eq_refl, value_or, ◌==◌, ◌∷◌, [],
}
use shigoku.Common.Int.{pos}
use shigoku.Store.Types.{ok}
use shigoku.View.Cli.{Options, parse_cli}
use shigoku.View.Cli.Argv.{
  ViewerOpts, build_viewer_argv, builtin, options, from_first, build_viewer_argv-read,
}
use shigoku.View.Cli.Report.{
  parse_report_line, report_line, open_page, open_page-same, report_line-read,
}

abbrev pub ResumePages : Type 0
ResumePages = Bytes → Option ℕ

abbrev pub set_page : Bytes → Option ℕ → ResumePages → ResumePages
set_page chapter_id page resume = λ id. if bytes_eq id chapter_id then page else resume id

-- The viewer is done: it left the chapter at its last page, or before.
unfoldable pub on_viewer_done : Bytes → ℕ → Option ℕ → ResumePages → ResumePages
on_viewer_done chapter_id total_pages none resume = resume
on_viewer_done chapter_id total_pages (some last_page) resume =
    if leb total_pages last_page
    then set_page chapter_id none resume
    else set_page chapter_id (some last_page) resume

unfoldable pub viewer_opts : Bool → Bytes → Bytes → Bytes → ResumePages → ViewerOpts
viewer_opts rtl report title chapter_id resume = record {
  rtl = rtl;
  start_page = pos (value_or (resume chapter_id) 1);
  report_file = some report;
  title = some title;
}

-- The page, counted from 0, at which a chapter of `count` pages is opened next.
abbrev pub next_page : ℕ → ℕ → ℕ
next_page page count = if suc page == count then 0 else page

start_after :
    (rtl : Bool) (report title chapter_id : Bytes) (page count : ℕ) (resume : ResumePages)
    → page < count
    → (viewer_opts rtl report title chapter_id
        (on_viewer_done chapter_id count (some (suc page)) resume)).start_page
      ≡ pos (suc (next_page page count))
unfolding viewer_opts on_viewer_done
start_after rtl report title chapter_id page count resume below =
    ground (arith, bytes_eq_refl chapter_id)

-- Reading goes on where it was left, with the built-in viewer and a manga that stays on the screen. The
-- viewer leaves a chapter of `count` pages, at most ten million, on a page, and reports it; the
-- application reads the report and, when the same chapter is opened again, writes arguments from
-- which the viewer opens it on that page, or on the first if it was the last.
pub report-resumes :
    (custom_path bin dir report title chapter_id : Bytes) (pages : List Bytes) (rtl : Bool)
    (resume : ResumePages) (page count : ℕ)
    → page < count
    → count ≤ 10000000
    → let told = parse_report_line (report_line (pos page)) in
      let opts =
        viewer_opts rtl report title chapter_id (on_viewer_done chapter_id count told resume) in
      (opt : Options) × (parse_cli
          (drop 1 (build_viewer_argv builtin custom_path bin dir pages opts))
        ≡ ok opt)
      × (open_page opt (pos count) ≡ pos (next_page page count))
report-resumes custom_path bin dir report title chapter_id pages rtl resume page count below small =
    rw (report_line-read page (omega arith)) (
      let opts =
        viewer_opts rtl report title chapter_id
          (on_viewer_done chapter_id count (some (suc page)) resume) in
      let start = start_after rtl report title chapter_id page count resume below in
      let inside : next_page page count < count = ground arith in
      let opt =
        options (dir ∷ []) opts.rtl (from_first opts.start_page) opts.report_file opts.title in
      let at : opt.start_page ≡ pos (suc (next_page page count)) = rw start (ground arith) in
      (
        opt,
        build_viewer_argv-read custom_path bin dir pages opts (rw start (omega (arith, inside))),
        open_page-same opt (next_page page count) count inside at,
      ))
