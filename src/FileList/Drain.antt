-- ===== src/FileList/Drain.antt =====
-- `UCMultiFileList` of src/uc_multi_file_list.cpp lists each planned file, once, with its deletes.
use unity_catalog.Base.{
  ℕ, zero, suc, ◌<◌, ◌≡◌, refl, ap, ◌∙◌, String, Option, some, List, [], ◌∷◌, ◌++◌, append-nil,
  append_assoc, map, Bool, true, false, not, is_empty, arith, ◌⊎◌, inl, inr, Bool-cases,
}
use unity_catalog.Result.{Result, ok, traverse}
use unity_catalog.ScanPlan.{DeleteFile, FileScanTask, ScanPlanResult}
use unity_catalog.FileList.{
  OpenFileInfo, MultiFileList, make_open_file_info, delete_file_at, add_file_scan_task, add_tasks,
  Lists, ingest, expand_next_path,
}

-- A file with the delete files that its task refers to, as one response names them.
abbrev pub Entry : Type 0
Entry = OpenFileInfo × List DeleteFile

-- The entries of some tasks, each with its references resolved.
pub data Resolves (all : List DeleteFile) : List FileScanTask → List Entry → Type 0 where
  no_tasks : Resolves all [] []
  resolved :
      (task : FileScanTask) (deletes : List DeleteFile) (tasks : List FileScanTask)
      (es : List Entry)
      → traverse (delete_file_at all) task.delete_file_references ≡ ok deletes
      → Resolves all tasks es
      → Resolves all (task ∷ tasks) ((make_open_file_info task.data_file, deletes) ∷ es)

abbrev pub file_of : Entry → OpenFileInfo
file_of e = e.0

abbrev pub deletes_of : Entry → List DeleteFile
deletes_of e = e.1

-- A list with some entries more, one behind the other.
abbrev pub holding : MultiFileList → List Entry → MultiFileList
holding list es = record list {
  expanded_files = list.expanded_files ++ map file_of es;
  file_deletes = list.file_deletes ++ map deletes_of es;
}

holding-cons :
    (list : MultiFileList) (e : Entry) (es : List Entry)
    → holding (holding list (e ∷ [])) es ≡ holding list (e ∷ es)
holding-cons list e es =
    rw
      (
        append_assoc list.expanded_files (e.0 ∷ []) (map file_of es),
        append_assoc list.file_deletes (e.1 ∷ []) (map deletes_of es),
      )
      refl

add_task-holding :
    (all deletes : List DeleteFile) (task : FileScanTask) (list : MultiFileList)
    → traverse (delete_file_at all) task.delete_file_references ≡ ok deletes
    → add_file_scan_task task all list
      ≡ (ok tt, holding list ((make_open_file_info task.data_file, deletes) ∷ []))
unfolding add_file_scan_task
add_task-holding all deletes task list h = rw (h, add_file_scan_task) refl

pub add_tasks-holding :
    (all : List DeleteFile) (tasks : List FileScanTask) (es : List Entry) (list : MultiFileList)
    → Resolves all tasks es
    → add_tasks tasks all list ≡ (ok tt, holding list es)
unfolding add_tasks
add_tasks-holding all tasks es list no_tasks = simp append-nil
add_tasks-holding all tasks es list (resolved task deletes ts fs h r) =
    rw (add_task-holding all deletes task list h, add_tasks)
      (add_tasks-holding all ts fs
          (holding list ((make_open_file_info task.data_file, deletes) ∷ [])) r
        ∙ ap (λ x. (ok tt, x)) (holding-cons list (make_open_file_info task.data_file, deletes) fs))

Resolves-length :
    {all : List DeleteFile} {tasks : List FileScanTask} {es : List Entry}
    → Resolves all tasks es
    → is_empty es ≡ is_empty tasks
Resolves-length no_tasks = refl
Resolves-length (resolved task deletes ts fs h r) = refl

module _ (W : Type 0) (fetch : String → W → Result ScanPlanResult × W) where
  -- The entries that are still to come behind some tokens, in the order in which the code asks for
  -- them, and the number of requests that this takes: the server's answers are those of a plan that
  -- has an end.
  pub data Pending : ℕ → W → List String → List Entry → Type 0 where
    drained : (w : W) → Pending 0 w [] []
    fetched :
        (n : ℕ) (w w' : W) (token : String) (tokens : List String) (result : ScanPlanResult)
        (es fs : List Entry)
        → fetch token w ≡ (ok result, w')
        → Resolves result.delete_files result.file_scan_tasks es
        → Pending n w' (tokens ++ result.plan_tasks) fs
        → Pending (suc n) w (token ∷ tokens) (es ++ fs)

  -- What one call does to a list behind which `fs` is still to come.
  pub record Expansion (list : MultiFileList) (fs : List Entry)
      (o : Option (Result Bool × Lists W fetch)) : Type 0 where
    pub added : Bool
    pub after : MultiFileList
    pub world : W
    pub found : List Entry
    pub left : List Entry
    pub rounds : ℕ
    pub returned : o ≡ some (ok added, (after, world))
    pub holds : after ≡ record (holding list found) { remaining_tokens = after.remaining_tokens }
    pub complete : fs ≡ found ++ left
    pub pending : Pending rounds world after.remaining_tokens left
    pub found_some : is_empty found ≡ not added
    pub at_end : (added ≡ true) ⊎ (left ≡ [])

  -- A response with tokens alone adds no file.
  skip :
      {list : MultiFileList} {ts : List String} {fs : List Entry}
      {o : Option (Result Bool × Lists W fetch)} (es : List Entry)
      → is_empty es ≡ true
      → Expansion (record list { remaining_tokens = ts }) fs o
      → Expansion list (es ++ fs) o
  skip [] h x = record {
    added = x.added;
    after = x.after;
    world = x.world;
    found = x.found;
    left = x.left;
    rounds = x.rounds;
    returned = x.returned;
    holds = x.holds;
    complete = x.complete;
    pending = x.pending;
    found_some = x.found_some;
    at_end = x.at_end;
  }
  skip (e ∷ es) h x = cc

  ingest-Expansion :
      (again : Lists W fetch → Option (Result Bool × Lists W fetch)) (n : ℕ) (list : MultiFileList)
      (result : ScanPlanResult) (w : W) (es fs : List Entry)
      → Resolves result.delete_files result.file_scan_tasks es
      → Pending n w (list.remaining_tokens ++ result.plan_tasks) fs
      → ((l : MultiFileList) → Pending n w l.remaining_tokens fs → Expansion l fs (again (l, w)))
      → Expansion list (es ++ fs) (ingest W fetch again list (ok result, w))
  unfolding ingest
  ingest-Expansion again n list result w es fs r p h =
      elim (Bool-cases (is_empty result.file_scan_tasks)) [
        | inl none_found ↦
            rw (none_found, ingest)
              (skip es (Resolves-length r ∙ none_found) (
                h (record list { remaining_tokens = list.remaining_tokens ++ result.plan_tasks })
                  p))
        | inr some_found ↦
            rw (some_found, ingest)
              (let queued = record list {
                remaining_tokens = list.remaining_tokens ++ result.plan_tasks;
              } in
                record {
                  added = true;
                  after = holding queued es;
                  world = w;
                  found = es;
                  left = fs;
                  rounds = n;
                  returned = rw (add_tasks-holding _ _ es queued r) refl;
                  holds = refl;
                  complete = refl;
                  pending = p;
                  found_some = Resolves-length r ∙ some_found;
                  at_end = inl refl;
                })
      ]

  expand-Pending :
      (fuel n : ℕ) (list : MultiFileList) (w : W) (ts : List String) (fs : List Entry)
      → list.remaining_tokens ≡ ts
      → Pending n w ts fs
      → n < suc fuel
      → ((m : ℕ) (l : MultiFileList) (v : W) (gs : List Entry)
          → m < fuel
          → Pending m v l.remaining_tokens gs
          → Expansion l gs (expand_next_path W fetch fuel (l, v)))
      → Expansion list fs (expand_next_path W fetch (suc fuel) (list, w))
  unfolding expand_next_path
  expand-Pending fuel n list w ts fs e (drained v) small h =
      rw (e, expand_next_path)
        (record {
          added = false;
          after = list;
          world = w;
          found = [];
          left = [];
          rounds = 0;
          returned = refl;
          holds = simp append-nil;
          complete = refl;
          pending = rw e (drained w);
          found_some = refl;
          at_end = inr refl;
        })
  expand-Pending fuel n list w ts fs e (fetched m v w' token tokens result es gs answer r q) small
        h =
      rw (e, expand_next_path)
        (rw answer (
          skip {list = record list { remaining_tokens = token ∷ tokens }} {ts = tokens}
            {fs = es ++ gs} [] refl
            (ingest-Expansion (expand_next_path W fetch fuel) m
              (record list { remaining_tokens = tokens }) result w' es gs r q
              λ l p. h m l w' gs (omega arith) p)))

  -- With fuel for the requests that the plan still takes, each of which is answered, `ExpandNextPath`
  -- returns, and throws nothing. It says true exactly if it added an entry; what it added, with the deletes beside each
  -- file, and what then is still to come are together what was to come before, in its order; and
  -- where it says false, nothing is still to come.
  pub expand_next_path-Expansion :
      (fuel n : ℕ) (list : MultiFileList) (w : W) (fs : List Entry)
      → n < fuel
      → Pending n w list.remaining_tokens fs
      → Expansion list fs (expand_next_path W fetch fuel (list, w))
  expand_next_path-Expansion zero n list w fs small p = absurd (omega arith)
  expand_next_path-Expansion (suc fuel) n list w fs small p =
      expand-Pending fuel n list w list.remaining_tokens fs refl p small
        λ m l v gs. expand_next_path-Expansion fuel m l v gs
