-- ===== src/Jenkins/Crawler/Groups.antt =====
-- internal/ingest/jenkins/crawler.go: the groups of the jobs that share a pipeline.
use mathlib.Core.List.{append_assoc, append-nil}
use dalikamata.Prelude.{
  String, ◌≡◌, refl, ◌∙◌, Bool, true, false, List, [], ◌∷◌, ◌++◌, ◌==◌, eq_iff, filter, map,
  Bool-cases, inl, inr, if◌then◌else◌,
}
use dalikamata.Prelude.Dict.{Dict, Distinct, keys, lookup, lookup-insert, insert-Distinct}
use dalikamata.Platform.{Platform}
use dalikamata.Jenkins.Api.{JobEntry, JobPorts, JobSettings}
use dalikamata.Jenkins.Jobs.{pipeline_path}
use dalikamata.Jenkins.Crawler.{
  JobCrawler, EntryWithBuilds, or_empty_group, join_group, probe, group_entries,
}

-- The entries of a pipeline's group, in order.
abbrev pub entries_of : String → Dict (List EntryWithBuilds) → List JobEntry
entries_of pp groups = map (λ (e : EntryWithBuilds). e.entry) (or_empty_group (lookup pp groups))

abbrev is_of : String → JobEntry → Bool
is_of pp e = pipeline_path e == pp

map_entry-append :
    (xs ys : List EntryWithBuilds)
    → map (λ (e : EntryWithBuilds). e.entry) (xs ++ ys)
      ≡ map (λ (e : EntryWithBuilds). e.entry) xs ++ map (λ (e : EntryWithBuilds). e.entry) ys
map_entry-append [] ys = refl
map_entry-append (x ∷ xs) ys = rw (map_entry-append xs ys) refl

append_if :
    (b : Bool) (x : JobEntry) (xs ys : List JobEntry)
    → (xs ++ (if b then x ∷ [] else [])) ++ ys ≡ xs ++ (if b then x ∷ ys else ys)
append_if true x xs ys = rw append_assoc refl
append_if false x xs ys = rw append-nil refl

entries_of-join_group :
    (pp : String) (e : EntryWithBuilds) (groups : Dict (List EntryWithBuilds))
    → entries_of pp (join_group e groups)
      ≡ entries_of pp groups ++ (if is_of pp e.entry then e.entry ∷ [] else [])
unfolding join_group
entries_of-join_group pp e groups =
    let path = pipeline_path e.entry in
    let more = or_empty_group (lookup path groups) ++ (e ∷ []) in
    elim (Bool-cases (path == pp)) [
      | inl same ↦
          let key : path ≡ pp = (eq_iff path pp).0 same in
          rw
            (
              lookup-insert path pp more groups,
              same,
              key,
              map_entry-append (or_empty_group (lookup pp groups)) (e ∷ []),
            )
            refl
      | inr other ↦ rw (lookup-insert path pp more groups, other, append-nil) refl
    ]

module _ ⦃go : Platform⦄ {W E : Type 0} (ports : JobPorts W E) (settings : JobSettings) where
  entries_of-group_entries :
      (pp : String) (entries : List JobEntry) (groups : Dict (List EntryWithBuilds))
      (s : JobCrawler × W)
      → entries_of pp (group_entries ports settings groups entries s).1
        ≡ entries_of pp groups ++ filter (is_of pp) entries
  unfolding group_entries
  entries_of-group_entries pp [] groups s = rw append-nil refl
  entries_of-group_entries pp (e ∷ entries) groups s =
      let probed = probe ports settings e s in
      let joined : EntryWithBuilds = record { entry = e; builds = probed.1 } in
      entries_of-group_entries pp entries (join_group joined groups) probed.0
      ∙ (rw (entries_of-join_group pp joined groups) refl
          ∙ append_if (is_of pp e) e (entries_of pp groups) (filter (is_of pp) entries))

  group_entries-Distinct :
      (entries : List JobEntry) (groups : Dict (List EntryWithBuilds)) (s : JobCrawler × W)
      → Distinct (keys groups)
      → Distinct (keys (group_entries ports settings groups entries s).1)
  unfolding group_entries join_group
  group_entries-Distinct [] groups s h = h
  group_entries-Distinct (e ∷ entries) groups s h =
      let probed = probe ports settings e s in
      let joined : EntryWithBuilds = record { entry = e; builds = probed.1 } in
      group_entries-Distinct entries (join_group joined groups) probed.0
        (insert-Distinct (pipeline_path e) _ groups h)

  -- Whatever the server answers, the crawl has one group for each pipeline, and the group holds
  -- exactly the entries with that pipeline's path, in the order in which they were found.
  pub group_entries_lem :
      (entries : List JobEntry) (s : JobCrawler × W)
      → let groups = (group_entries ports settings [] entries s).1 in
        Distinct (keys groups)
        × ((pp : String) → entries_of pp groups ≡ filter (λ e. pipeline_path e == pp) entries)
  unfolding lookup
  group_entries_lem entries s =
      (group_entries-Distinct entries [] s tt, λ pp. entries_of-group_entries pp entries [] s)
