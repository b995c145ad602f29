-- ===== src/Tests/ConsoleRuns.antt =====
-- Runs of the console, and of libgit2's callers with a network that is down.
use free_kill.PackMan.Repository.{
  LibGit, Run, clone, pull, checkout, checkout_branch, status, head, path_of,
}
use free_kill.PackMan.Handles.{no_leaks}
use free_kill.PackMan.Tidy.{Idle, idle_at}
use free_kill.PackMan.Errors.{forget, until_error, pull_calls, checkout_calls, runs_until_error}
use free_kill.Shell.Completion.{Generator, Reading, fk_completion, has_prefix}
use free_kill.Shell.Matching.{fk_completion-matching, names_for, matching}
use free_kill.Shell.Line.{split, handle_line, quits, runs, kick_command}
use free_kill.Tests.Data.{waiting}
use free_kill.Base.{String, refl, string_eq, ℕ, suc, ◌≡◌, some, [], ◌∷◌, arith}
use free_kill.Base.Int.{ℤ, pos, negsuc}

-- A call that works, and one that fails; the disk counts the calls.
abbrev works : ℕ → ℤ × ℕ
works d = (pos 0, suc d)

abbrev fails : ℕ → ℤ × ℕ
fails d = (negsuc 0, suc d)

abbrev git : LibGit
git = record {
  Disk = ℕ;
  git_clone = λ url path. fails;
  repository_open = λ path. works;
  remote_lookup = λ path name. works;
  remote_fetch = λ path. fails;
  set_head = λ path ref. works;
  checkout_head = λ path. works;
  oid_fromstr = λ hash. works;
  set_head_detached = λ path hash. works;
  revparse_single = λ path spec. works;
  checkout_tree = λ path spec. works;
  status_list_new = λ path. works;
  statuses = λ path d. 0 ∷ 256 ∷ [];
  status_current = 0;
  status_ignored = 16384;
  oid_of = λ path spec d. "abc";
  url_file_name = λ url. "sp.git";
}

abbrev start : Run git
start = idle_at git 0 5

no_leaks_example :
    Idle git (clone git "sp" start).1
    × Idle git (pull git "sp" start).1
    × Idle git (checkout git "sp" "abc" start).1
    × Idle git (checkout_branch git "sp" "abc" start).1
    × Idle git (status git "sp" start).1
    × Idle git (head git "sp" start).1
no_leaks_example = no_leaks git "sp" "abc" 0 5

runs_until_error_example :
    let path = path_of git "sp" in
    (forget git (pull git "sp" start) ≡ until_error git works (pull_calls git path) 0)
    × (forget git (checkout git "sp" "abc" start)
        ≡ until_error git works (checkout_calls git path "abc") 0)
    × (forget git (checkout_branch git "sp" "abc" start)
        ≡ until_error git works (works ∷ works ∷ []) 0)
runs_until_error_example = runs_until_error git "sp" "abc" start

-- A generator that has been used up.
abbrev used : Generator
used = record { arr = "x" ∷ []; list_index = 1 }

-- Freed memory that still holds the name
abbrev intact : String → Reading
intact name = record { compared = name; copied = name }

fk_completion-matching_example :
    fk_completion intact 3 [] [] waiting used 4 ("ban" ∷ "A" ∷ []) "A" ≡ "Alice" ∷ []
unfolding matching has_prefix names_for
fk_completion-matching_example =
    fk_completion-matching intact 3 [] [] waiting used 4 ("ban" ∷ "A" ∷ []) "A" (omega arith)

kick_line : handle_line (some "kick 3") ≡ runs kick_command ("3" ∷ [])
unfolding handle_line split has_prefix
kick_line = refl

quitting_line : handle_line (some "quitter") ≡ quits
unfolding handle_line has_prefix
quitting_line = refl
