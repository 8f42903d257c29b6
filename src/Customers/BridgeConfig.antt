-- ===== src/Customers/BridgeConfig.antt =====
-- `CustomerBridgeConfigService` of app/modules/customers/service.py: how a customer's bridge is
-- reached, and what it last answered. Times are parameters.
use zaraamad_portal_be.Base.{
  ℕ, Bool, false, not, ◌&&◌, ◌||◌, Option, none, some, List, [], ◌∷◌, ◌++◌, map, if◌then◌else◌,
  keep, find_row, update_row, set_or_keep, is_some, sort_by,
}
use zaraamad_portal_be.Text.{Text, is_empty}
use zaraamad_portal_be.Http.{Exception, http_exception, data_integrity_error}
use zaraamad_portal_be.Database.{Customer, CustomerBridgeConfig, Database, truthy}
use zaraamad_portal_be.Session.{
  Action, pure, reads, modify, commit, commit_or_rollback, ◌>>=◌, ◌>>◌,
}
use zaraamad_portal_be.Customers.Service.{get_customer_or_404, get_active_customer_or_404}

-- The request, its URL normalised.
pub record CustomerBridgeConfigUpdate : Type 0 where
  pub bridge_base_url : Option (Option Text)
  pub bridge_is_enabled : Option (Option Bool)

-- What the bridge client makes of an answer.
pub record BridgeSubscriptionResult : Type 0 where
  pub start_date : Text
  pub end_date : Text
  pub grace_period_end_date : Option Text
  pub is_active : Bool
  pub status_message : Text

abbrev pub config_key : CustomerBridgeConfig → ℕ
config_key c = c.customer_id

abbrev pub new_config : ℕ → CustomerBridgeConfig
new_config k = record {
  customer_id = k;
  bridge_base_url = none;
  bridge_is_enabled = some false;
  last_online_status = none;
  last_health_checked_at = none;
  last_health_error = none;
  cached_subscription_start_date = none;
  cached_subscription_end_date = none;
  cached_subscription_grace_period_end_date = none;
  cached_subscription_is_active = none;
  cached_subscription_status_message = none;
  last_subscription_synced_at = none;
  last_subscription_error = none;
}

abbrev pub clear_health_status : CustomerBridgeConfig → CustomerBridgeConfig
clear_health_status c = record c {
  last_online_status = none;
  last_health_checked_at = none;
  last_health_error = none;
}

abbrev pub clear_subscription_cache : CustomerBridgeConfig → CustomerBridgeConfig
clear_subscription_cache c = record c {
  cached_subscription_start_date = none;
  cached_subscription_end_date = none;
  cached_subscription_grace_period_end_date = none;
  cached_subscription_is_active = none;
  cached_subscription_status_message = none;
  last_subscription_synced_at = none;
  last_subscription_error = none;
}

-- `if update_data`
abbrev has_updates : CustomerBridgeConfigUpdate → Bool
has_updates dto = is_some dto.bridge_base_url || is_some dto.bridge_is_enabled

unfoldable pub with_config_update :
    CustomerBridgeConfigUpdate → CustomerBridgeConfig → CustomerBridgeConfig
with_config_update dto c =
    let changed : CustomerBridgeConfig = record c {
      bridge_base_url = set_or_keep dto.bridge_base_url c.bridge_base_url;
      bridge_is_enabled = set_or_keep dto.bridge_is_enabled c.bridge_is_enabled;
    } in
    if has_updates dto then clear_subscription_cache (clear_health_status changed) else changed

unfoldable pub get_config : ℕ → Action (Customer × Option CustomerBridgeConfig)
get_config k = do
  customer ← get_customer_or_404 k
  config ← reads (λ d. find_row config_key k d.bridge_configs)
  pure (customer, config)

pub get_active_config : ℕ → Action (Customer × Option CustomerBridgeConfig)
get_active_config k = do
  customer ← get_active_customer_or_404 k
  config ← reads (λ d. find_row config_key k d.bridge_configs)
  pure (customer, config)

abbrev refused : Text → Exception
refused error_text = http_exception 409 data_integrity_error

-- The row is added where there is none.
abbrev add_config : ℕ → Option CustomerBridgeConfig → Action (Unit {0})
add_config k (some config) = pure tt
add_config k none =
    modify (λ d. record d { bridge_configs = d.bridge_configs ++ new_config k ∷ [] })

abbrev config_or_new : ℕ → Option CustomerBridgeConfig → CustomerBridgeConfig
config_or_new k none = new_config k
config_or_new k (some config) = config

abbrev change_config :
    CustomerBridgeConfig → (CustomerBridgeConfig → CustomerBridgeConfig) → Action (Unit {0})
change_config c f =
    modify
      (λ d. record d { bridge_configs = update_row config_key c.customer_id f d.bridge_configs })

abbrev persist_health : Bool → ℕ → Option Text → CustomerBridgeConfig → CustomerBridgeConfig
persist_health is_online checked_at error c = record c {
  last_online_status = some is_online;
  last_health_checked_at = some checked_at;
  last_health_error = error;
}

abbrev with_subscription :
    BridgeSubscriptionResult → ℕ → CustomerBridgeConfig → CustomerBridgeConfig
with_subscription subscription checked_at c = record c {
  cached_subscription_start_date = some subscription.start_date;
  cached_subscription_end_date = some subscription.end_date;
  cached_subscription_grace_period_end_date = subscription.grace_period_end_date;
  cached_subscription_is_active = some subscription.is_active;
  cached_subscription_status_message = some subscription.status_message;
  last_subscription_synced_at = some checked_at;
  last_subscription_error = none;
}

abbrev without_subscription : ℕ → Text → CustomerBridgeConfig → CustomerBridgeConfig
without_subscription checked_at error c = record (clear_subscription_cache c) {
  last_subscription_synced_at = some checked_at;
  last_subscription_error = some error;
}

abbrev with_refresh_error : Text → CustomerBridgeConfig → CustomerBridgeConfig
with_refresh_error error c = record c { last_subscription_error = some error }

module _ (violation : Database → Option Text) where
  unfoldable pub upsert_config :
      ℕ → CustomerBridgeConfigUpdate → Action (Customer × CustomerBridgeConfig)
  unfolding get_config with_config_update commit_or_rollback
  upsert_config k dto = do
    (customer, found) ← get_config k
    add_config k found
    change_config (config_or_new k found) (with_config_update dto)
    commit_or_rollback violation refused
    pure (customer, with_config_update dto (config_or_new k found))

  abbrev persist :
      (CustomerBridgeConfig → CustomerBridgeConfig)
      → CustomerBridgeConfig
      → Action CustomerBridgeConfig
  persist f c = do change_config c f; commit violation; pure (f c)

  pub persist_health_status :
      Bool → ℕ → Option Text → CustomerBridgeConfig → Action CustomerBridgeConfig
  persist_health_status is_online checked_at error c =
      persist (persist_health is_online checked_at error) c

  pub persist_subscription_snapshot :
      BridgeSubscriptionResult → ℕ → CustomerBridgeConfig → Action CustomerBridgeConfig
  persist_subscription_snapshot subscription checked_at c =
      persist (with_subscription subscription checked_at) c

  pub persist_subscription_absence : ℕ → Text → CustomerBridgeConfig → Action CustomerBridgeConfig
  persist_subscription_absence checked_at error c =
      persist (without_subscription checked_at error) c

  pub persist_subscription_refresh_error : Text → CustomerBridgeConfig → Action CustomerBridgeConfig
  persist_subscription_refresh_error error c = persist (with_refresh_error error) c

abbrev has_url : Option Text → Bool
has_url none = false
has_url (some url) = not (is_empty url)

abbrev is_refreshable : CustomerBridgeConfig → Bool
is_refreshable c = truthy c.bridge_is_enabled && has_url c.bridge_base_url

unfoldable pub list_refreshable_customer_ids : Action (List ℕ)
list_refreshable_customer_ids =
    reads (λ d. map config_key (sort_by config_key (keep is_refreshable d.bridge_configs)))
