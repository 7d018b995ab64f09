-- ===== src/Images/Generations.antt =====
-- What a generation of the catalog stands for.
use kernmux.Prelude.{
  some_injective, ◌<◌, ◌≡◌, ◌⊎◌, inl, inr, refl, Option-cases, sym, ap, ◌∙◌, Option, some, List, [],
  ◌∷◌, Result, ok, err, arith, Bool-cases, ◌==◌,
}
use kernmux.Prelude.Text.{Text}
use kernmux.Api.{Generation}
use kernmux.Images.{
  ArtifactRecord, ArtifactId, ArtifactKind, ImageStoreError, ImageStore, ImageCatalog,
  ImageCatalogSnapshot, ImageCatalogError, observe, advance, refresh, import_path, import_with,
  import_end, import_os_image, resolve, resolve_end, same_records_iff,
}

-- The catalog never leaves a later generation for an earlier one, and keeps what it observed for
-- as long as it keeps the generation.
abbrev pub Follows : ImageCatalog → ImageCatalog → Type 0
Follows c d = (d ≡ c) ⊎ (c.generation < d.generation)

observe-Follows :
    (c : ImageCatalog) (listed : Result (List ArtifactRecord) ImageStoreError)
    → Follows c (observe c listed).1
unfolding observe advance
observe-Follows c (err e) = ground arith
observe-Follows c (ok artifacts) = ground arith

-- A successful refresh returns the generation and the records that the catalog then holds.
observe-ok :
    (c : ImageCatalog) (listed : Result (List ArtifactRecord) ImageStoreError)
    (s : ImageCatalogSnapshot)
    → (observe c listed).0 ≡ ok s
    → (listed ≡ ok s.artifacts)
      × ((observe c listed).1 ≡ record { generation = s.generation; observed = some s.artifacts })
unfolding observe advance
observe-ok c (err e) s h = cc
observe-ok c (ok artifacts) s h = elim (Option-cases c.observed) [
  | inl unread ↦ ground arith
  | inr (before, read) ↦ ground (arith, same_records_iff before artifacts)
]

-- The store's operations that the service asks for, each with the world it finds.
pub data Request (W : Type 0) : Type 0 where
  refresh_in : W → Request W
  import_path_in : Generation → ArtifactKind → Text → Option ArtifactId → W → Request W
  import_os_image_in : Generation → Text → Text → Option Text → Option ArtifactId → W → Request W
  resolve_in : ArtifactKind → ArtifactId → W → Request W

module _ {W : Type 0} (disk : ImageStore W) where
  abbrev pub serve : ImageCatalog → Request W → ImageCatalog
  serve c (refresh_in w) = (refresh disk c w).0.1
  serve c (import_path_in g kind source id w) = (import_path disk c g kind source id w).0.1
  serve c (import_os_image_in g source label architecture id w) =
      (import_os_image disk c g source label architecture id w).0.1
  serve c (resolve_in kind id w) = (resolve disk c kind id w).0.1

  abbrev pub serve_all : ImageCatalog → List (Request W) → ImageCatalog
  serve_all c [] = c
  serve_all c (r ∷ rs) = serve_all (serve c r) rs

  Follows-refl : (c : ImageCatalog) → Follows c c
  Follows-refl c = inl refl

  Follows-trans : (c d e : ImageCatalog) → Follows c d → Follows d e → Follows c e
  Follows-trans c d e h k = ground arith

  refresh-Follows : (c : ImageCatalog) (w : W) → Follows c (refresh disk c w).0.1
  unfolding refresh
  refresh-Follows c w = observe-Follows c (disk.list w).0

  import_end-Follows :
      (c : ImageCatalog) (answer : Result ArtifactRecord ImageStoreError) (w : W)
      → Follows c (import_end disk c answer w).0.1
  unfolding import_end
  import_end-Follows c (err e) w = inl refl
  import_end-Follows c (ok artifact) w = refresh-Follows c w

  import_with-Follows :
      (g : Generation) (ask : W → Result ArtifactRecord ImageStoreError × W)
      (before : Result ImageCatalogSnapshot ImageCatalogError) (c : ImageCatalog) (w : W)
      → Follows c (import_with disk g ask ((before, c), w)).0.1
  unfolding import_with
  import_with-Follows g ask (err e) c w = inl refl
  import_with-Follows g ask (ok before) c w = elim (Bool-cases (g == before.generation)) [
    | inl current ↦ rw current (import_end-Follows c (ask w).0 (ask w).1)
    | inr stale ↦ rw stale (inl refl)
  ]

  resolve_end-keeps :
      (kind : ArtifactKind) (id : ArtifactId)
      (before : Result ImageCatalogSnapshot ImageCatalogError) (c : ImageCatalog) (w : W)
      → (resolve_end disk kind id ((before, c), w)).0.1 ≡ c
  resolve_end-keeps kind id (err e) c w = refl
  resolve_end-keeps kind id (ok s) c w = refl

  serve-Follows : (c : ImageCatalog) (r : Request W) → Follows c (serve c r)
  serve-Follows c (refresh_in w) = refresh-Follows c w
  serve-Follows c (import_path_in g kind source id w) =
      unfold import_path in
      Follows-trans _ _ _ (refresh-Follows c w)
        (import_with-Follows g (disk.import_path kind source id) _ _ _)
  serve-Follows c (import_os_image_in g source label architecture id w) =
      unfold import_os_image in
      Follows-trans _ _ _ (refresh-Follows c w)
        (import_with-Follows g (disk.import_os_image source label architecture id) _ _ _)
  serve-Follows c (resolve_in kind id w) =
      unfold resolve in
      Follows-trans _ _ _ (refresh-Follows c w) (inl (resolve_end-keeps kind id _ _ _))

  serve_all-Follows : (c : ImageCatalog) (rs : List (Request W)) → Follows c (serve_all c rs)
  serve_all-Follows c [] = inl refl
  serve_all-Follows c (r ∷ rs) =
      Follows-trans c (serve c r) _ (serve-Follows c r) (serve_all-Follows (serve c r) rs)

  refresh-ok :
      (c : ImageCatalog) (w : W) (s : ImageCatalogSnapshot)
      → (refresh disk c w).0.0 ≡ ok s
      → (refresh disk c w).0.1 ≡ record { generation = s.generation; observed = some s.artifacts }
  unfolding refresh
  refresh-ok c w s h = (observe-ok c (disk.list w).0 s h).1

  -- A generation of the catalog stands for one list of artifacts: if a refresh returns a snapshot,
  -- then whatever requests are served after it, another refresh returns a snapshot of a later
  -- generation, or one of the same generation with the same artifacts.
  pub generation_identifies :
      (c : ImageCatalog) (w v : W) (rs : List (Request W)) (s t : ImageCatalogSnapshot)
      → (refresh disk c w).0.0 ≡ ok s
      → (refresh disk (serve_all (refresh disk c w).0.1 rs) v).0.0 ≡ ok t
      → (s.generation < t.generation)
        ⊎ ((s.generation ≡ t.generation) × (s.artifacts ≡ t.artifacts))
  generation_identifies c w v rs s t h k =
      let first = refresh-ok c w s h in
      let last = refresh-ok (serve_all (refresh disk c w).0.1 rs) v t k in
      let follows =
        Follows-trans _ _ _ (serve_all-Follows (refresh disk c w).0.1 rs) (refresh-Follows _ v) in
      elim follows [
        | inl same ↦
            let e = sym first ∙ sym same ∙ last in
            inr (ap (λ d. d.generation) e, some_injective (ap (λ d. d.observed) e))
        | inr later ↦
            let from = ap (λ d. d.generation) first in
            let to = ap (λ d. d.generation) last in inl (omega arith)
      ]

  import_with-ok :
      (g : Generation) (ask : W → Result ArtifactRecord ImageStoreError × W)
      (before : Result ImageCatalogSnapshot ImageCatalogError) (c : ImageCatalog) (w : W)
      {imported : ArtifactRecord × ImageCatalogSnapshot}
      → (import_with disk g ask ((before, c), w)).0.0 ≡ ok imported
      → (s : ImageCatalogSnapshot) × (before ≡ ok s) × (g ≡ s.generation)
  unfolding import_with
  import_with-ok g ask (err e) c w h = cc
  import_with-ok g ask (ok s) c w h = (s, refl, ground arith)

  -- An import is made only on the artifacts that its caller has seen: if a refresh returned a
  -- snapshot, and after whatever further requests an import that names its generation succeeds,
  -- then the store listed the artifacts of that snapshot right before.
  pub import_path_sees :
      (c : ImageCatalog) (w v : W) (rs : List (Request W)) (s : ImageCatalogSnapshot)
      (kind : ArtifactKind) (source : Text) (id : Option ArtifactId)
      (imported : ArtifactRecord × ImageCatalogSnapshot)
      → (refresh disk c w).0.0 ≡ ok s
      → (import_path disk (serve_all (refresh disk c w).0.1 rs) s.generation kind source id v).0.0
        ≡ ok imported
      → (disk.list v).0 ≡ ok s.artifacts
  import_path_sees c w v rs s kind source id imported h k =
      let d = serve_all (refresh disk c w).0.1 rs in
      let (t, read, same) =
        import_with-ok s.generation (disk.import_path kind source id) (refresh disk d v).0.0
          (refresh disk d v).0.1 (refresh disk d v).1 {imported = imported}
          (unfold import_path in k) in
      let listed : (disk.list v).0 ≡ ok t.artifacts =
        unfold refresh in (observe-ok d (disk.list v).0 t read).0 in
      elim (generation_identifies c w v rs s t h read) [
        | inl later ↦ absurd (omega arith)
        | inr (_, artifacts) ↦ listed ∙ ap ok (sym artifacts)
      ]
