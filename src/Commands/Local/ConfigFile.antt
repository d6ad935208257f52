-- ===== src/Commands/Local/ConfigFile.antt =====
-- What `iamzero local` does with the configuration file of the clients.
use iamzero.Prelude.{String, ◌≡◌, ◌≢◌, ◌∙◌, ◌==◌, eq_iff, Bool-cases, inl, inr}
use iamzero.Prelude.Outcome.{ok}
use iamzero.Tokens.{Token}
use iamzero.Commands.Local.{exists, Ini, write_config, config_by_stat, update_config, with_url}

module _ {F X : Type 0} (ini : Ini F X) where
  open ini use {value, set_value, load, save_to, stat, empty}

  -- A value that is set is read back, and others are kept; a file that is saved exists, and is
  -- loaded as it was.
  pub record KeepsFiles : Type 0 where
    pub value-set_value :
        (section key v : String) (cfg : F) → value section key (set_value section key v cfg) ≡ v
    pub value-set_value_other :
        (section key other v : String) (cfg : F)
        → key ≢ other
        → value section other (set_value section key v cfg) ≡ value section other cfg
    pub load-save_to :
        (file : String) (cfg : F) (x x' : X)
        → save_to cfg file x ≡ (ok tt, x')
        → (load file x' ≡ (ok cfg, x')) × (stat file x' ≡ exists)

  abbrev pub Configured : String → Token → String → X → Type 0
  Configured file token url x =
      (cfg : F) × (load file x ≡ (ok cfg, x))
      × (value "iamzero" "token" cfg ≡ token.id)
      × (value "iamzero" "url" cfg ≡ url)

  IsConfig : String → Token → String → F → Type 0
  IsConfig file token url cfg =
      (value "iamzero" "token" cfg ≡ token.id) × (value "iamzero" "url" cfg ≡ url)

  module _ (keeps : KeepsFiles) where
    saved :
        (file : String) (token : Token) (url : String) (cfg : F) (x x' : X)
        → save_to cfg file x ≡ (ok tt, x')
        → IsConfig file token url cfg
        → Configured file token url x'
    unfolding IsConfig
    saved file token url cfg x x' e (t, u) = (cfg, (keeps.load-save_to file cfg x x' e).0, t, u)

    token-url :
        (v : String) (cfg : F)
        → value "iamzero" "token" (set_value "iamzero" "url" v cfg) ≡ value "iamzero" "token" cfg
    token-url v cfg =
        keeps.value-set_value_other "iamzero" "url" "token" v cfg
          λ e. cc ((eq_iff "url" "token").1 e)

    with_url-IsConfig :
        (file : String) (token : Token) (url : String) (cfg : F)
        → IsConfig file token url (with_url ini url (set_value "iamzero" "token" token.id cfg))
    unfolding IsConfig with_url
    with_url-IsConfig file token url cfg =
        elim (Bool-cases
          (value "iamzero" "url" (set_value "iamzero" "token" token.id cfg) == url)) [
            | inl e ↦
                rw e (keeps.value-set_value "iamzero" "token" token.id cfg, (eq_iff _ url).0 e)
            | inr e ↦ rw e (
              token-url url (set_value "iamzero" "token" token.id cfg)
                  ∙ keeps.value-set_value "iamzero" "token" token.id cfg,
              keeps.value-set_value "iamzero" "url" url (set_value "iamzero" "token" token.id cfg),
            )
          ]

    -- On a disk that keeps what is saved: where there is a configuration file that can be read and
    -- written, it then has the new token and the URL of the collector.
    pub write_config-update :
        (file : String) (token : Token) (url collector_url : String) (cfg : F) (x x' : X)
        → stat file x ≡ exists
        → load file x ≡ (ok cfg, x)
        → write_config ini file token url collector_url x ≡ (ok tt, x')
        → Configured file token collector_url x'
    unfolding write_config config_by_stat update_config
    write_config-update file token url collector_url cfg x x' s l e =
        saved file token collector_url _ x x' (rw (s, l) at e)
          (with_url-IsConfig file token collector_url cfg)
