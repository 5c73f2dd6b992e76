-- ===== src/Shell/Posts.antt =====
-- src/ard_ossie/adapters/github_cli.py: what the methods run that post events and statuses.
use ard_ossie_provider.Prelude.{◌≡◌, String, ok}
use ard_ossie_provider.Json.{Json}
use ard_ossie_provider.Shell.{Machine, Command, post_dispatch, post_status}
use ard_ossie_provider.Shell.Text.{github_sha}
use ard_ossie_provider.Shell.Pulls.{set_status, repository_dispatch}
use ard_ossie_provider.Shell.Emits.{Emits, emits_rules, Emits-bind-lift}

module _ {Bytes : Type 0} (m : Machine Bytes) {Q : Command Bytes → Type 0} where
  pub Emits-repository_dispatch :
      (event : String) (payload : Json)
      → Q (post_dispatch event payload)
      → Emits Q (repository_dispatch m event payload)
  unfolding repository_dispatch
  Emits-repository_dispatch event payload q = search emits_rules depth 10

  pub Emits-set_status :
      (sha context state description url : String)
      → ((target : String)
          → github_sha m.casefold sha ≡ ok target
          → Q (post_status target context state description url))
      → Emits Q (set_status m sha context state description url)
  unfolding set_status
  Emits-set_status sha context state description url q =
      search (emits_rules, Emits-bind-lift, q) depth 12
