-- ===== src/Tests/ClientRuns.antt =====
-- Runs of the replayer and of the package manager.
use free_kill.PackMan.Disabled.{has_row, named, load_summary_lists}
use free_kill.PackMan.Names.{distinct}
use free_kill.PackMan.{load_summary, Git, PackMan}
use free_kill.Replayer.{load, toggle, play, Pair, Moment}
use free_kill.Replayer.Speed.{IsSpeed}
use free_kill.Base.{
  length, refl, nat_eq, string_eq, int_eq, contains, String, ◌≡◌, refl, Bool, true, false, List, [],
  ◌∷◌, arith,
}

abbrev pair : String → Bool → Pair
pair c request = record { elapsed = 700; is_request = request; cmd = c; json_data = "" }

abbrev recording : List Pair
recording = pair "Move" false ∷ pair "Ask" true ∷ pair "Log" false ∷ []

normal-IsSpeed : IsSpeed (load recording).speed
unfolding IsSpeed
normal-IsSpeed = ground arith

-- The replay is paused for good before the first command is over.
abbrev moments : List Moment
moments =
    let c = load recording in
    let m : Moment = record { before = c; after = c; resumed = false } in
    record m { after = toggle c } ∷ m ∷ m ∷ []

stopped : length (play moments 0 0 recording) ≡ 1
unfolding play toggle
stopped = refl

-- A disk that is a list of the packages on it.
abbrev git : Git
git = record {
  Disk = List String;
  clone = λ url d. (url ∷ d, true);
  pull = λ n d. (d, true);
  checkout = λ n h d. (d, true);
  checkout_branch = λ n b d. (d, true);
  status = λ n d. true;
  head = λ n d. "h";
  remove = λ n d. [];
  file_name = λ url. url;
}

abbrev manager : PackMan git
manager = record {
  packages = record { name = "shzl"; url = "shzl"; hash = "h"; enabled = false } ∷ [];
  disabled_packs = "shzl" ∷ [];
  disk = [];
}

load_summary_lists_example :
    contains (load_summary git manager (("ol", "ol", "h") ∷ [])).disabled_packs "shzl" ≡ true
unfolding distinct contains has_row named
load_summary_lists_example = load_summary_lists git manager (("ol", "ol", "h") ∷ []) "shzl" refl
