-- ===== src/Sqlite/Tables.antt =====
-- internal/domain/repo/schema.sql and sqlite.go: the tables, whose rows stand in the order of their
-- insertion, and the statements that change one. Times and lists are texts in a row,
-- which only the codec reads: a cell.
use dalikamata.Prelude.{String, Bool, ◌&&◌, List, [], ◌∷◌, ◌==◌, if◌then◌else◌, Result}
use dalikamata.Prelude.Int.{ℤ, eqb_ℤ}
use dalikamata.Platform.{Platform}
use dalikamata.Model.{Repo, Team}

-- INSERT ... ON CONFLICT DO UPDATE SET every column that is not of the key: the row with that key is
-- replaced.
unfoldable pub upsert {ℓ} : {Row : Type ℓ} → (Row → Row → Bool) → Row → List Row → List Row
upsert same_key new [] = new ∷ []
upsert same_key new (row ∷ rows) =
    if same_key row new then new ∷ rows else row ∷ upsert same_key new rows

-- INSERT ... ON CONFLICT DO NOTHING
unfoldable pub insert_or_ignore {ℓ} :
    {Row : Type ℓ} → (Row → Row → Bool) → Row → List Row → List Row
insert_or_ignore same_key new [] = new ∷ []
insert_or_ignore same_key new (row ∷ rows) =
    if same_key row new then row ∷ rows else row ∷ insert_or_ignore same_key new rows

pub record CommitRow (Cell : Type 0) : Type 0 where
  pub sha : String
  pub repo_id : String
  pub author : String
  pub timestamp : Cell

pub record PullRequestRow (Cell : Type 0) : Type 0 where
  pub id : String
  pub repo_id : String
  pub name : String
  pub title : String
  pub description : String
  pub state : String
  pub author : String
  pub created_at : Cell
  pub updated_at : Cell

pub record WorkflowRow (Cell : Type 0) : Type 0 where
  pub id : String
  pub name : String
  pub repo_ids : Cell

pub record ComponentRow (Cell : Type 0) : Type 0 where
  pub name : String
  pub team_name : String
  pub repo_ids : Cell

module _ ⦃go : Platform⦄ where
  open go use {Float}

  pub record WorkflowRunRow (Cell : Type 0) : Type 0 where
    pub id : String
    pub workflow_id : String
    pub number : ℤ
    pub status : String
    pub branch : String
    pub commit_sha : String
    pub started_at : Cell
    pub duration : Float

  pub record WorkflowTaskRow (Cell : Type 0) : Type 0 where
    pub workflow_run_id : String
    pub task_order : ℤ
    pub name : String
    pub status : String
    pub started_at : Cell
    pub duration : Float

  pub record Database (Cell : Type 0) : Type 0 where
    pub repos : List Repo
    pub commits : List (CommitRow Cell)
    pub pull_requests : List (PullRequestRow Cell)
    pub workflows : List (WorkflowRow Cell)
    pub workflow_runs : List (WorkflowRunRow Cell)
    pub workflow_tasks : List (WorkflowTaskRow Cell)
    pub teams : List Team
    pub components : List (ComponentRow Cell)

  -- The primary keys.
  abbrev pub same_repo : Repo → Repo → Bool
  same_repo a b = a.repo_id == b.repo_id

  abbrev pub same_commit : {Cell : Type 0} → CommitRow Cell → CommitRow Cell → Bool
  same_commit a b = a.sha == b.sha

  abbrev pub same_pull_request : {Cell : Type 0} → PullRequestRow Cell → PullRequestRow Cell → Bool
  same_pull_request a b = a.id == b.id

  abbrev pub same_workflow : {Cell : Type 0} → WorkflowRow Cell → WorkflowRow Cell → Bool
  same_workflow a b = a.id == b.id

  abbrev pub same_run : {Cell : Type 0} → WorkflowRunRow Cell → WorkflowRunRow Cell → Bool
  same_run a b = a.id == b.id

  abbrev pub same_task : {Cell : Type 0} → WorkflowTaskRow Cell → WorkflowTaskRow Cell → Bool
  same_task a b = a.workflow_run_id == b.workflow_run_id && eqb_ℤ a.task_order b.task_order

  abbrev pub same_team : Team → Team → Bool
  same_team a b = a.name == b.name

  abbrev pub same_component : {Cell : Type 0} → ComponentRow Cell → ComponentRow Cell → Bool
  same_component a b = a.name == b.name

-- time.Format and time.Parse at RFC 3339, and encoding/json on lists of texts.
module _ ⦃go : Platform⦄ where
  open go use {Time}

  pub record Texts (Cell : Type 0) (E : Type 0) : Type 0 where
    pub format_time : Time → Cell
    pub parse_time : Cell → Result E Time
    pub marshal_ids : List String → Result E Cell
    pub unmarshal_ids : Cell → Result E (List String)
