-- ===== src/Events/Confirmations/Imports.antt =====
-- The imports confirm and submit nothing.
use hub_nfts.Prelude.{◌≡◌, refl, ◌∙◌, sym, subst, String, Option, List}
use hub_nfts.Entities.{Uuid}
use hub_nfts.Effects.{
  Env, Db, World, Wp, Result, ◌>>◌, each, write, execute, ok_or_then, read_env_then,
  read_clock_then, insert_then, execute_then, write_then, part_then, pure_end, by_then, weaken,
}
use hub_nfts.Inputs.{Attribute}
use hub_nfts.Messages.{ProtoCreator}
use hub_nfts.Mutations.Common.{insert_collection_creator, insert_mint_creator}
use hub_nfts.Events.Results.{ProcessorError}
use hub_nfts.Events.Creation.{Process}
use hub_nfts.Events.Imports.{
  SolanaCollectionPayload, SolanaMintPayload, ImportedFile, index_collection, index_mint,
  index_collection_creator, index_mint_creator, index_attributes, index_files,
}
use hub_nfts.Events.Confirmations.Steps.{
  IsCharged, ConfirmsIn, Changes, each-Confirms, idle, nothing,
}

-- The deductions are as they were.
abbrev Same : {A : Type 0} → World → Result ProcessorError A → World → Type 0
Same w r v = (v.confirmed ≡ w.confirmed) × (v.submitted ≡ w.submitted)

module _ (P : Uuid → Type 0) where
  Same-Confirms :
      (w : World) (r : Result ProcessorError (Unit {0})) (v : World) → Same w r v → Changes P w r v
  Same-Confirms w r v (e, f) = record {
    confirmed = subst (λ c. ConfirmsIn P w.confirmed c) (sym e) nothing;
    none_submitted = f;
  }

write-Same : (f : Db → Db) (w : World) → Wp (Same w) (write f) w
write-Same f w = by_then _ (write_then _ _ (refl, refl) (pure_end _ (refl, refl)))

execute-Same : (f : Db → Option (Unit {0} × Db)) (w : World) → Wp (Same w) (execute f) w
execute-Same f w = by_then _ (execute_then _ _ (refl, refl) λ a db e. pure_end _ (refl, refl))

collection_creator-Same :
    (env : Env) (id : Uuid) (c : ProtoCreator) (w : World)
    → Wp (Same w) (index_collection_creator env id c) w
unfolding index_collection_creator insert_collection_creator
collection_creator-Same env id c w = ok_or_then _ _ _ (refl, refl) λ share e. execute-Same _ w

mint_creator-Same :
    (env : Env) (id : Uuid) (c : ProtoCreator) (w : World)
    → Wp (Same w) (index_mint_creator env id c) w
unfolding index_mint_creator insert_mint_creator
mint_creator-Same env id c w = ok_or_then _ _ _ (refl, refl) λ share e. execute-Same _ w

-- The loops at the end of an import.
loops-Same :
    (body : ProtoCreator → Process) (creators : List ProtoCreator) (id : Uuid)
    (attributes : List Attribute) (files : List ImportedFile) (w : World)
    → ((c : ProtoCreator) (v : World) → Wp (Same v) (body c) v)
    → Wp (Same w) (do each body creators; index_attributes id attributes; index_files id files) w
unfolding index_attributes index_files
loops-Same body creators id attributes files w h =
    part_then _ _ (Same w) (each-Confirms (IsCharged w.db) body creators w h) (λ v k. k)
      (λ e v k. k)
      λ a v (k, l).
        part_then _ _ (Same w)
          (weaken _ (λ r u (m, n). (m ∙ k, n ∙ l))
            (each-Confirms (IsCharged w.db) _ attributes v (λ x u. write-Same _ u)))
          (λ u j. j) (λ e u j. j)
          λ b u (m, n).
            weaken _ (λ r t (o, q). (o ∙ m, q ∙ n))
              (each-Confirms (IsCharged w.db) _ files u (λ x t. write-Same _ t))

pub index_collection-Confirms :
    (id project user : String) (payload : SolanaCollectionPayload) (w : World)
    → Wp (Changes (IsCharged w.db) w) (index_collection id project user payload) w
unfolding index_collection
index_collection-Confirms id project user payload w =
    let k = idle (IsCharged w.db) w in
    read_env_then _ (
      ok_or_then _ _ _ k λ metadata _. ok_or_then _ _ _ k λ collection _. ok_or_then _ _ _ k λ p _.
        ok_or_then _ _ _ k λ fee _. ok_or_then _ _ _ k λ u _. read_clock_then _ (
          insert_then _ _ _ k λ _. insert_then _ _ _ k λ _.
            weaken _ (Same-Confirms (IsCharged w.db) w) (
              loops-Same _ payload.creators _ metadata.attributes payload.files _
                (λ c v. collection_creator-Same _ _ c v))))

pub index_mint-Confirms :
    (id user : String) (payload : SolanaMintPayload) (w : World)
    → Wp (Changes (IsCharged w.db) w) (index_mint id user payload) w
unfolding index_mint
index_mint-Confirms id user payload w =
    let k = idle (IsCharged w.db) w in
    read_env_then _ (
      ok_or_then _ _ _ k λ metadata _. ok_or_then _ _ _ k λ mint _.
        ok_or_then _ _ _ k λ collection _. ok_or_then _ _ _ k λ u _. read_clock_then _ (
          ok_or_then _ _ _ k λ fee _. execute_then _ _ k λ row db _. insert_then _ _ _ k λ _.
            weaken _ (Same-Confirms (IsCharged w.db) w) (
              loops-Same _ payload.creators _ metadata.attributes payload.files _
                (λ c v. mint_creator-Same _ _ c v))))
