-- ===== src/DataSources/CleanupTests.antt =====
-- A cluster in which an owned import cron is found wherever one is read, and nothing else.
use ssp_operator.Base.{String, ◌≡◌, refl, arith, true, false, none, [], ◌∷◌, inl, inr, string_eq}
use ssp_operator.Base.Dict.{lookup}
use ssp_operator.DataSources.CleanedUp.{cleanup_ds_operand, cleanup_ds_operand-waits}
use ssp_operator.DataSources.Writes.{ManagedObject, WritesRequest, raw_content}
use ssp_operator.Resources.{found}
use ssp_operator.Resources.Cleanup.{delete_all, is_resource_owned}
use ssp_operator.Resources.Owned.{list_owned_resources}

abbrev remaining_cron : ManagedObject String String
remaining_cron = record {
  kind = "DataImportCron";
  name = "fedora-cron";
  namespace = "kubevirt-os-images";
  uid = "1";
  resource_version = "7";
  generation = 1;
  labels = [];
  annotations =
      ("operator-sdk/primary-resource-type", "SSP.ssp.kubevirt.io")
      ∷ ("operator-sdk/primary-resource", "kubevirt/ssp")
      ∷ [];
  owner_references = [];
  deleting = false;
  content = raw_content "";
}

abbrev cron_remains : WritesRequest String String
cron_remains = record {
  client = record {
    get = λ k. found remaining_cron;
    create = λ k. inr k;
    update = λ k. inr k;
    delete = λ k. none;
  };
  delete = λ k. found tt;
  list_data_sources = found [];
  list_data_import_crons = found (remaining_cron ∷ []);
  owners = record {
    instance_namespace = "kubevirt";
    set_owner_annotations = λ o. inr o;
    set_controller_reference = λ o. inr o;
  };
  owner_name = record { group_kind = "SSP.ssp.kubevirt.io"; namespaced_name = "kubevirt/ssp" };
  instance_labels = none;
  crd_exists = λ crd. true;
  namespace_and_roles = [];
  network_policies = [];
  semantic_equal = λ a b. false;
  same_cron_spec = λ a b. true;
  default_update = λ new found_object. found_object;
  empty = remaining_cron;
}

cleanup_ds_operand-waits_example :
    (cleanup_ds_operand cron_remains).1
    ≡ (delete_all cron_remains.owners cron_remains.client.get cron_remains.delete
        (remaining_cron ∷ [])).1
unfolding list_owned_resources lookup string_eq is_resource_owned
cleanup_ds_operand-waits_example =
    cleanup_ds_operand-waits cron_remains (remaining_cron ∷ []) remaining_cron refl refl (inl refl)
      (remaining_cron, refl, refl, λ p. ground arith)
