-- ===== src/Governor/Sync.antt =====
-- `sync` (src/web/search/governor/mod.rs): what a read, merge and write of the shared file keeps.
use web_agent_research.Prelude.{
  [], ℕ, ◌+◌, ◌≤◌, ◌≡◌, refl, ap, ◌∙◌, ◌≢◌, inl, inr, Bool, true, some, List, ◌∷◌, arith, Text,
  text_eq_iff, if◌then◌else◌, Bool-cases, All,
}
use web_agent_research.Engine.{Base}
use web_agent_research.Search.{SearchProvider, id}
use web_agent_research.Config.{Env, all_providers, max_suspension}
use web_agent_research.Engine.{EngineView, merge_view, checked_add, unwrap_or, default_view}
use web_agent_research.Engine.Merge.{merge_view_capped}
use web_agent_research.Governor.{
  disk_view, Governor, Views, Disk, sync, refresh, merge_all, write_all, cap_at, view_or_default,
}

-- The views after `sync`, with and without a cache root.
pub views-sync :
    (env : Env) (g : Governor) (now : ℕ) (written : Bool) (disk : Disk) (f : Views → Views)
    → (sync env g now written disk f).0.views
      ≡ f (if g.has_root then merge_all env g.base now disk g.views else g.views)
unfolding sync
views-sync env g now written disk f = elim (Bool-cases g.has_root) [ inl e ↦ rw e | inr e ↦ rw e ]

-- The other fields stay.
pub fields-sync :
    (env : Env) (g : Governor) (now : ℕ) (written : Bool) (disk : Disk) (f : Views → Views)
    → ((sync env g now written disk f).0.queues ≡ g.queues)
      × ((sync env g now written disk f).0.max_requests_per_engine ≡ g.max_requests_per_engine)
      × ((sync env g now written disk f).0.hermetic ≡ g.hermetic)
unfolding sync
fields-sync env g now written disk f = elim (Bool-cases g.has_root) [
  | inl e ↦ rw e (refl, refl, refl)
  | inr e ↦ rw e (refl, refl, refl)
]

-- A merge leaves the request count of this run alone.
pub request_count-merge_all :
    (env : Env) (g : Governor) (now : ℕ) (disk : Disk) (p : SearchProvider)
    → (view_or_default
        (if g.has_root then merge_all env g.base now disk g.views else g.views)
        p).request_count
      ≡ (view_or_default g.views p).request_count
unfolding merge_all merge_view
request_count-merge_all env g now disk p = elim (Bool-cases g.has_root) [
  | inl e ↦ rw e
  | inr e ↦ rw e
]

Known : Text → List SearchProvider → Type 0
Known key = All (λ p. id p ≢ key)

write_all_other :
    (g : Governor) (views : Views) (ps : List SearchProvider) (disk : Disk) (key : Text)
    → All (λ p. id p ≢ key) ps
    → write_all g.base views ps disk key ≡ disk key
unfolding write_all
write_all_other g views [] disk key h = refl
write_all_other g views (p ∷ ps) disk key (h, hs) =
    ground (arith, text_eq_iff (id p) key, write_all_other g views ps disk key hs)

-- An entry of `engines.json` under an identifier that no engine of this build has is preserved by
-- every `sync`, whatever the operation changes.
pub sync_unknown :
    (env : Env) (g : Governor) (now : ℕ) (written : Bool) (disk : Disk) (f : Views → Views)
    (key : Text)
    → All (λ p. id p ≢ key) all_providers
    → (sync env g now written disk f).1 key ≡ disk key
unfolding sync
sync_unknown env g now written disk f key h = elim (Bool-cases g.has_root) [
  | inr e ↦ rw e
  | inl e ↦ elim (Bool-cases written) [
    | inr u ↦ rw (e, u)
    | inl u ↦
        rw (e, u)
          (write_all_other g (f (merge_all env g.base now disk g.views)) all_providers disk key h)
  ]
]

merged_lem :
    (env : Env) (g : Governor) (now : ℕ) (written : Bool) (disk : Disk) (p : SearchProvider)
    → g.has_root ≡ true
    → some (
        merge_view
          (view_or_default g.views p)
          (disk_view env g.base now disk p)
          now
          (cap_at env g.base now))
      ≡ (refresh env g now written disk).0.views p
unfolding refresh sync merge_all
merged_lem env g now written disk p root = rw root

cap_at_le :
    (env : Env) (base : Base) (now u : ℕ) → u ≤ cap_at env base now → u ≤ now + max_suspension env
unfolding checked_add
cap_at_le env base now u h = ground arith

-- After a refresh from a cache root no engine is suspended for longer than the longest configured
-- suspension, however far in the future the file, this process's own state or a clock puts the
-- expiry.
pub refresh_capped :
    (env : Env) (g : Governor) (now : ℕ) (written : Bool) (disk : Disk) (p : SearchProvider)
    (v : EngineView) (u : ℕ)
    → g.has_root ≡ true
    → (refresh env g now written disk).0.views p ≡ some v
    → v.suspended_until ≡ some u
    → u ≤ now + max_suspension env
unfolding refresh
refresh_capped env g now written disk p v u root h k =
    let merged : some (
          merge_view (view_or_default g.views p) (disk_view env g.base now disk p) now
            (cap_at env g.base now))
        ≡ some v =
      merged_lem env g now written disk p root ∙ h in
    let bound : u ≤ cap_at env g.base now =
      merge_view_capped (view_or_default g.views p) (disk_view env g.base now disk p) now
        (cap_at env g.base now) u
        (ap (λ o. (unwrap_or o default_view).suspended_until) merged ∙ k) in
    cap_at_le env g.base now u bound
