-- ===== src/Background/Uploads/Steps.antt =====
-- The steps that the tasks share: the wallet of the project, the write of the upload, and the event
-- at the end.
use hub_nfts.Prelude.{
  suc, ◌≡◌, refl, sym, subst, inl, inr, String, Option, some, ℕ, update_where, find_sound, ◌⊎◌,
  ==_iff,
}
use mathlib.Core.Option.{some-injective}
use hub_nfts.Entities.{Uuid, MetadataJson, Collection}
use hub_nfts.Messages.{NftEvent, NftEventKey}
use hub_nfts.Effects.{
  World, M, Result, ok, err, fault, ◌>>=◌, tick, UploadResponse, Wp, find_by_id, has_key, send,
  metadata_jsons_table, update_then, ok_or_then, pure_end, part_then, weaken, or_error_then,
  send_then, by_then, raise, raise_end,
}
use hub_nfts.Mutations.Common.{fetch_owner_then}
use hub_nfts.Background.Errors.{TaskError, no_project_wallet}
use hub_nfts.Background.Tasks.{set_uploaded, store_upload, project_owner}
use hub_nfts.Background.Uploads.{Stored, Outcome, Untouched, Sending, Announced, event_uri}

pub project_owner_then :
    {B : Type 0} (collection : Collection) (k : String → M TaskError B)
    {Q : Result TaskError B → World → Type 0} {w : World}
    → Q (err no_project_wallet) (tick w)
    → ((owner : String) → Wp Q (k owner) (tick w))
    → Wp Q (project_owner collection >>= k) w
unfolding project_owner
project_owner_then collection k {Q} {w} h s =
    or_error_then no_project_wallet _ k (λ r w'. w' ≡ tick w)
      (by_then _ (fetch_owner_then _ _ _ _ refl refl λ owner. pure_end owner refl))
      (λ w' e. subst (Q (err no_project_wallet)) (sym e) h)
      (λ x w' e. subst (Q (err no_project_wallet)) (sym e) h)
      (λ a w' e. subst (Wp Q (k a)) (sym e) (s a))

-- The state after the write.
abbrev stored_world : UploadResponse → Uuid → World → ℕ → World
stored_world response id u c = record u {
  calls = c;
  db = record (u.db) {
    metadata_jsons =
        update_where (has_key metadata_jsons_table id) (set_uploaded response) u.db.metadata_jsons;
  };
}

abbrev Written :
    UploadResponse → Uuid → World → ℕ → Result TaskError (MetadataJson × String) → World → Type 0
Written response id u c (ok p) w' = (w' ≡ stored_world response id u c) × (p.1 ≡ response.uri)
Written response id u c (err e) w' = w' ≡ stored_world response id u c
Written response id u c fault w' = w' ≡ record u { calls = c }

store_upload-Written :
    (response : UploadResponse) (json : MetadataJson) (u : World) (c : ℕ)
    → Wp (Written response json.id u (suc c)) (store_upload response json) (record u { calls = c })
unfolding store_upload
store_upload-Written response json u c =
    update_then _ _ _ _ refl
      λ row found. ok_or_then _ _ _ refl λ uri e. pure_end _ (refl, sym (some-injective _ _ e))

-- The write of the upload, then a step that sends.
pub store_send :
    (response : UploadResponse) (json : MetadataJson) (target : Option Uuid) (id : Uuid)
    (f : MetadataJson × String → M TaskError (Unit {0})) (u : World) (c : ℕ)
    → target ≡ some id
    → find_by_id metadata_jsons_table id u.db ≡ some json
    → ((p : MetadataJson × String) (w : World) → Wp (Sending p.1 w) (f p) w)
    → Wp
        (Outcome (Announced response.uri) response target u)
        (store_upload response json >>= f)
        (record u { calls = c })
store_send response json target id f u c aim found sends =
    part_then _ f (Written response id u (suc c))
      (subst
        (λ k.
          Wp (Written response k u (suc c)) (store_upload response json) (record u { calls = c }))
        same (store_upload-Written response json u c))
      (λ w' e. subst (Q fault) (sym e) ((refl, refl, refl, refl, refl), refl, inl refl))
      (λ x w' e.
        subst (Q (err x)) (sym e) ((refl, refl, refl, refl, refl), refl, inr (id, aim, written)))
      (λ p w' (e, g).
        subst (Wp Q (f p)) (sym e)
          (weaken (f p) (conclude p g) (sends p (stored_world response id u (suc c)))))
  where
    Q : Result TaskError (Unit {0}) → World → Type 0
    Q = Outcome (Announced response.uri) response target u

    same : json.id ≡ id
    same = (==_iff _ _).0 (find_sound (has_key metadata_jsons_table id) u.db.metadata_jsons found)

    written : Stored response id u.db (stored_world response id u (suc c)).db
    written = record { row = json; was = found; now = refl }

    conclude :
        (p : MetadataJson × String)
        → p.1 ≡ response.uri
        → (r : Result TaskError (Unit {0})) (w' : World)
        → Sending p.1 (stored_world response id u (suc c)) r w'
        → Q r w'
    conclude p g (ok _) w' (same_rest, d, a) = (
      same_rest,
      subst (λ x. Announced x u.sent w'.sent) g a,
      id,
      aim,
      record { row = json; was = found; now = d },
    )
    conclude p g (err e) w' (same_rest, d, s) =
        (same_rest, s, inr (id, aim, record { row = json; was = found; now = d }))
    conclude p g fault w' (same_rest, d, s) =
        (same_rest, s, inr (id, aim, record { row = json; was = found; now = d }))

-- A step that sends an event with this URI.
pub send-Sending :
    (event : NftEvent) (key : NftEventKey) (uri : String) (w : World)
    → event_uri event ≡ some uri
    → Wp (Sending uri w) (send event key) w
send-Sending event key uri w e = by_then _ (
    send_then event key _ ((refl, refl, refl, refl, refl), refl, refl)
      (pure_end _ (
        (refl, refl, refl, refl, refl),
        refl,
        record { event = event; key = key; now = refl; announces = e },
      )))

-- Nothing has happened yet, but for calls.
pub idle :
    {response : UploadResponse} {target : Option Uuid} (w : World)
    → Untouched w w
      × (w.sent ≡ w.sent)
      × ((w.db ≡ w.db) ⊎ ((id : Uuid) × (target ≡ some id) × Stored response id w.db w.db))
idle w = ((refl, refl, refl, refl, refl), refl, inl refl)

pub raise-Sending : (e : TaskError) (uri : String) (w : World) → Wp (Sending uri w) (raise e) w
raise-Sending e uri w = raise_end e ((refl, refl, refl, refl, refl), refl, refl)
