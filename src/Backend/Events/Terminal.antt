-- ===== src/Backend/Events/Terminal.antt =====
-- A settled commit: what no later event changes.
use runcodes.Prelude.{◌≡◌, refl, true}
use runcodes.Backend.Events.{
  EventType, status, compilation, case_result, timings, artifact, finished, error, alert, unknown,
  Event, CommitRow, Graded, Rows, is_terminal_status, guarded, grade_by, store_graded, set_status,
  set_compilation, set_finished, put_status, put_compilation, put_finished, set_case_result,
  set_artifact, store_event, persist_event, persisted, Write, skipped, malformed, writes, Answer,
  stored, lost, unsure, write_of,
}

-- The commit's row is settled, with its results.
pub record Settled (g h : Graded) : Type 0 where
  pub same_commit : h.commit ≡ g.commit
  pub same_results : h.results ≡ g.results

guarded_settled :
    (f : CommitRow → CommitRow) (r : CommitRow)
    → is_terminal_status r.status ≡ true
    → guarded f r ≡ r
guarded_settled f r h = rw h refl

grade_by-Settled :
    (t : EventType) (ev : Event) (g : Graded)
    → is_terminal_status g.commit.status ≡ true
    → Settled g (grade_by t ev g)
unfolding set_status set_compilation set_finished set_case_result set_artifact
grade_by-Settled status ev g h = record {
  same_commit = guarded_settled (put_status ev) _ h;
  same_results = refl;
}
grade_by-Settled compilation ev g h = record {
  same_commit = guarded_settled (put_compilation ev) _ h;
  same_results = refl;
}
grade_by-Settled case_result ev g h = rw h (record { same_commit = refl; same_results = refl })
grade_by-Settled artifact ev g h = record { same_commit = refl; same_results = refl }
grade_by-Settled finished ev g h = record {
  same_commit = guarded_settled (put_finished ev) _ h;
  same_results = refl;
}
grade_by-Settled timings ev g h = record { same_commit = refl; same_results = refl }
grade_by-Settled error ev g h = record { same_commit = refl; same_results = refl }
grade_by-Settled alert ev g h = record { same_commit = refl; same_results = refl }
grade_by-Settled unknown ev g h = record { same_commit = refl; same_results = refl }

-- Once a commit has a terminal status, no event of the judge, of any type and whatever the database
-- answers, changes the row of the commit or the results of its cases.
pub persist_event-Settled :
    (a : Answer) (ev : Event) (db : Rows)
    → is_terminal_status db.graded.commit.status ≡ true
    → Settled db.graded (persist_event a ev db).0.graded
unfolding persist_event store_event store_graded
persist_event-Settled a ev db h = by_write (write_of ev) a
  where
    same : Settled db.graded db.graded
    same = record { same_commit = refl; same_results = refl }

    by_write : (w : Write) (a : Answer) → Settled db.graded (persisted w a ev db).0.graded
    by_write skipped a = same
    by_write malformed a = same
    by_write writes stored = grade_by-Settled ev.type ev db.graded h
    by_write writes lost = same
    by_write writes unsure = grade_by-Settled ev.type ev db.graded h
