-- ===== src/Import/Images.antt =====
-- internal/exporter/service.go: what `importItemImages` asks of the server, and what it counts.
use emby_migrator.Prelude.{
  ◌+◌, ◌≡◌, refl, sym, ap, ◌∙◌, Bool, true, false, not, List, [], ◌∷◌, ◌++◌, append_assoc,
  append-nil, length, Text, filter, not-false, if_cases, option_cases, if◌then◌else◌, All, arith,
}
use emby_migrator.Import.Payload.{Json, Link, Write, put_item, put_image, Run}
use emby_migrator.Import.Fields.{IsSimpler}
use emby_migrator.Import.Types.{
  ImportRequest, Image, Entry, ImportMatch, allowed_image_types, is_selected,
}
use emby_migrator.Import.Item.{upload, import_image, import_item_images}

module _ (j : Json) where
  -- The item with that id is changed, or an image of it.
  abbrev pub IsTo : Text → Write j → Type 0
  IsTo id (put_item i raw) = i ≡ id
  IsTo id (put_image i kind content) = i ≡ id

  pub append-IsTo :
      (id : Text) (xs ys : List (Write j))
      → All (IsTo id) xs
      → All (IsTo id) ys
      → All (IsTo id) (xs ++ ys)
  append-IsTo id [] ys h k = k
  append-IsTo id (x ∷ xs) ys h k = (h.0, append-IsTo id xs ys h.1 k)

  pub IsSimpler-IsTo :
      (id : Text) (included : Bool) (ws : List (Write j))
      → All (IsSimpler j id included) ws
      → All (IsTo id) ws
  IsSimpler-IsTo id included [] h = tt
  IsSimpler-IsTo id included (put_item i raw ∷ ws) h = (h.0.0, IsSimpler-IsTo id included ws h.1)
  IsSimpler-IsTo id included (put_image i k c ∷ ws) h = absurd h.0

  -- More was asked for, all of it of the item.
  abbrev pub Extends : {W : Type 0} → Text → Run j W → Run j W → Type 0
  Extends id r after = (ws : List (Write j)) × (after.writes ≡ r.writes ++ ws) × All (IsTo id) ws

module _ (j : Json) {W : Type 0} (link : Link j W) (req : ImportRequest)
    (image_types : List Text) where
  -- Of the images that are selected each is counted once.
  abbrev pub Counted : List Image → ImportMatch → ImportMatch → Type 0
  Counted images before after =
      (after.images_pushed + after.image_failures
        ≡ before.images_pushed
          + before.image_failures
          + length (filter (is_selected (allowed_image_types image_types)) images))
      × (after.status ≡ before.status)

  abbrev pub selected : List Image → List Image
  selected images = filter (is_selected (allowed_image_types image_types)) images

  selected-one :
      (image : Image) (b : Bool)
      → is_selected (allowed_image_types image_types) image ≡ b
      → length (selected (image ∷ [])) ≡ (if b then 1 else 0)
  selected-one image true e = rw e refl
  selected-one image false e = rw e refl

  selected_cons :
      (image : Image) (images : List Image)
      → length (selected (image ∷ images))
        ≡ length (selected (image ∷ [])) + length (selected images)
  selected_cons image images =
      if_cases (λ l. length l ≡ length (selected (image ∷ [])) + length (selected images))
        (is_selected (allowed_image_types image_types) image) _ _
        (λ e. omega (arith, selected-one image true e))
        (λ e. omega (arith, selected-one image false e))

  import_image-Extends :
      (entry : Entry j) (id : Text) (image : Image) (m : ImportMatch) (r : Run j W)
      → let (m1, r1) = import_image j link req image_types entry id image m r in
        Extends j id r r1 × Counted (image ∷ []) m m1
  unfolding import_image upload
  import_image-Extends entry id image m r =
      let Goal : ImportMatch × Run j W → Type 0 =
        λ (m1, r1). Extends j id r r1 × Counted (image ∷ []) m m1 in
      if_cases Goal (not (is_selected (allowed_image_types image_types) image)) _ _
        (λ b.
          let none_of = selected-one image false (ground (arith, b)) in
          (([], sym (append-nil r.writes), tt), (omega (arith, none_of), refl)))
        (λ b.
          let one = selected-one image true (not-false _ b) in
          option_cases Goal (entry.read_image image.path) _ _
            (λ _. (([], sym (append-nil r.writes), tt), (omega (arith, one), refl)))
            (λ content _. (
              (put_image id image.kind content ∷ [], refl, (refl, tt)),
              option_cases (Counted (image ∷ []) m)
                  (upload j link req image_types id image.kind content r).0 _ _
                  (λ _. (omega (arith, one), refl)) (λ _ _. (omega (arith, one), refl)),
            )))

  pub import_item_images-Extends :
      (entry : Entry j) (id : Text) (images : List Image) (m : ImportMatch) (r : Run j W)
      → let (m1, r1) = import_item_images j link req image_types entry id images m r in
        Extends j id r r1 × Counted images m m1
  unfolding import_item_images
  import_item_images-Extends entry id [] m r =
      (([], sym (append-nil r.writes), tt), (omega arith, refl))
  import_item_images-Extends entry id (image ∷ images) m r =
      let ((ws, made, to), (count, same)) = import_image-Extends entry id image m r in
      let (m1, r1) = import_image j link req image_types entry id image m r in
      let ((vs, made', to'), (count', same')) = import_item_images-Extends entry id images m1 r1 in
      (
        (
          ws ++ vs,
          made' ∙ ap (λ l. l ++ vs) made ∙ append_assoc r.writes ws vs,
          append-IsTo j id ws vs to to',
        ),
        (omega (arith, count, count', selected_cons image images), same' ∙ same),
      )
