-- ===== src/Planner/Resources.antt =====
-- Which of the missing resources an approval creates.
use agent_builder_factory_ap.Base.{
  ◌≡◌, Bool, true, false, not, List, [], ◌∷◌, map, contains, string_key,
}
use agent_builder_factory_ap.Planner.{MissingResource, Decisions, Made}

abbrev keep_if : Bool → MissingResource → List MissingResource → List MissingResource
keep_if true m ms = m ∷ ms
keep_if false m ms = ms

-- the resources that the user skipped, or those that the user did not skip
abbrev pub with_skipped : Bool → Decisions → List MissingResource → List MissingResource
with_skipped b d [] = []
with_skipped true d (m ∷ ms) =
    keep_if (contains d.skip_resource_keys m.resource_key) m (with_skipped true d ms)
with_skipped false d (m ∷ ms) =
    keep_if (not (contains d.skip_resource_keys m.resource_key)) m (with_skipped false d ms)

-- What was made of these resources follows the user's decisions.
pub record Followed (d : Decisions) (ms : List MissingResource) (r : Made) : Type 0 where
  pub skipped : r.skipped ≡ map (λ m. m.resource_key) (with_skipped true d ms)
  pub names : map (λ c. c.name) r.created ≡ map (λ m. m.name) (with_skipped false d ms)
  pub kinds :
      map (λ c. c.resource_type) r.created ≡ map (λ m. m.resource_type) (with_skipped false d ms)
  pub keys : map (λ e. e.0) r.created_lookup ≡ map (λ m. m.resource_key) (with_skipped false d ms)
  pub ids : map (λ e. e.1) r.created_lookup ≡ map (λ c. c.resource_id) r.created
