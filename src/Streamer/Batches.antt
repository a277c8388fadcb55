-- ===== src/Streamer/Batches.antt =====
-- The slices of a batch that `CreateBatch` (disperser/batcher/encoding_streamer.go) makes.
use mathlib.Core.List.{append_assoc, append-nil}
use g_da_client.Common.{
  ℕ, suc, ◌+◌, Bool, false, ◌||◌, none, List, [], ◌∷◌, ◌++◌, Bytes, Map, Result, ok, ◌>>=◌, lookup,
  insert, lookup-insert, lookup-insert_self, delete_absent, length, All, map, ◌==◌, ◌≡◌, refl, sym,
  ap, subst, ltb, ◌∙◌, arith,
}
use g_da_client.Core.{BlobHeader}
use g_da_client.Disperser.Status.{Error}
use g_da_client.Disperser.BlobKey.{BlobKey, key_eq, key_beq_iff}
use g_da_client.Disperser.Metadata.{get_blob_key}
use g_da_client.EncodedStore.{EncodingResult, get_chunks_size, chunks, chunks-ok}
use g_da_client.Streamer.{Gathered, nothing_gathered, gather, values_of, batch_of, make_batch}

abbrev pub key_of : EncodingResult → BlobKey
key_of r = get_blob_key r.blob_metadata

abbrev pub header_of : EncodingResult → BlobHeader
header_of r = record {
  commitment_root = r.blob_commitments.erasure_commitment;
  blob_length = chunks r;
}

abbrev pub is_key : BlobKey → List EncodingResult → Bool
is_key k [] = false
is_key k (r ∷ rs) = (key_of r == k) || is_key k rs

-- Each result has its slices, and its key is that of no later one.
abbrev pub AreSeparate : List EncodingResult → Type 0
AreSeparate [] = Unit
AreSeparate (r ∷ rs) =
    ((n : ℕ) × (get_chunks_size r ≡ ok n)) × (is_key (key_of r) rs ≡ false) × AreSeparate rs

-- None of the keys has been gathered.
abbrev AreNew : List EncodingResult → Gathered → Type 0
AreNew rs g =
    All
      (λ r.
        (lookup (key_of r) g.encoded_blob_by_key ≡ none)
        × (lookup (key_of r) g.metadata_by_key ≡ none))
      rs

-- The step of the loop, for a result with a new key.
abbrev add_result : EncodingResult → Gathered → Gathered
add_result r g = record {
  blob_keys = g.blob_keys ++ key_of r ∷ [];
  encoded_blob_by_key = insert (key_of r) r.blob_commitments g.encoded_blob_by_key;
  blob_header_by_key = insert (key_of r) (header_of r) g.blob_header_by_key;
  metadata_by_key = insert (key_of r) r.blob_metadata g.metadata_by_key;
}

abbrev add_results : List EncodingResult → Gathered → Gathered
add_results [] g = g
add_results (r ∷ rs) g = add_results rs (add_result r g)

AreNew-add_result :
    (r : EncodingResult) (rs : List EncodingResult) (g : Gathered)
    → is_key (key_of r) rs ≡ false
    → AreNew rs g
    → AreNew rs (add_result r g)
AreNew-add_result r [] g h new = tt
AreNew-add_result r (x ∷ xs) g h new = (
  (
    ground (
      arith,
      lookup-insert (key_of r) (key_of x) r.blob_commitments g.encoded_blob_by_key,
      key_beq_iff (key_of r) (key_of x),
      key_beq_iff (key_of x) (key_of r),
    ),
    ground (
      arith,
      lookup-insert (key_of r) (key_of x) r.blob_metadata g.metadata_by_key,
      key_beq_iff (key_of r) (key_of x),
      key_beq_iff (key_of x) (key_of r),
    ),
  ),
  AreNew-add_result r xs g (ground arith) new.1,
)

gather_eq :
    (rs : List EncodingResult) (g : Gathered)
    → AreSeparate rs
    → AreNew rs g
    → gather rs g ≡ ok (add_results rs g)
unfolding gather
gather_eq [] g h new = refl
gather_eq (r ∷ rs) g ((n, sized), alone, rest) ((absent, gone), more) =
    rw (sized, gather)
      (rw (absent, gather)
        (subst (λ k. gather rs (with k) ≡ ok (add_results rs (add_result r g)))
          (chunks-ok r n sized)
          (gather_eq rs (add_result r g) rest (AreNew-add_result r rs g alone more))))
  where
    with : ℕ → Gathered
    with k = record {
      blob_keys = g.blob_keys ++ key_of r ∷ [];
      encoded_blob_by_key = insert (key_of r) r.blob_commitments g.encoded_blob_by_key;
      blob_header_by_key =
          insert (key_of r)
            (record { commitment_root = r.blob_commitments.erasure_commitment; blob_length = k })
            g.blob_header_by_key;
      metadata_by_key = insert (key_of r) r.blob_metadata g.metadata_by_key;
    }

blob_keys-add_results :
    (rs : List EncodingResult) (g : Gathered)
    → (add_results rs g).blob_keys ≡ g.blob_keys ++ map key_of rs
blob_keys-add_results [] g = sym (append-nil _)
blob_keys-add_results (r ∷ rs) g =
    blob_keys-add_results rs (add_result r g)
    ∙ append_assoc g.blob_keys (key_of r ∷ []) (map key_of rs)

length-map : {A B : Type 0} (f : A → B) (xs : List A) → length (map f xs) ≡ length xs
length-map f [] = refl
length-map f (x ∷ xs) = ap suc (length-map f xs)

length-add_results :
    (rs : List EncodingResult) (g : Gathered)
    → AreSeparate rs
    → AreNew rs g
    → length (add_results rs g).metadata_by_key ≡ length g.metadata_by_key + length rs
unfolding get_blob_key insert
length-add_results [] g h new = omega arith
length-add_results (r ∷ rs) g h new = omega (
  arith,
  length-add_results rs (add_result r g) h.2 (AreNew-add_result r rs g h.1 new.1),
  ap length (delete_absent (key_of r) g.metadata_by_key new.0.1),
)

module _ {V : Type 0} (f : EncodingResult → V) where
  abbrev put_all : List EncodingResult → Map BlobKey V → Map BlobKey V
  put_all [] m = m
  put_all (r ∷ rs) m = put_all rs (insert (key_of r) (f r) m)

  lookup-put_all :
      (k : BlobKey) (rs : List EncodingResult) (m : Map BlobKey V)
      → is_key k rs ≡ false
      → lookup k (put_all rs m) ≡ lookup k m
  lookup-put_all k [] m h = refl
  lookup-put_all k (r ∷ rs) m h =
      ground
        (arith, lookup-put_all k rs (insert (key_of r) (f r) m), lookup-insert (key_of r) k (f r) m)

  -- The values of the keys are those of the results, in order.
  values_of-put_all :
      (rs : List EncodingResult) (m : Map BlobKey V)
      → AreSeparate rs
      → values_of (map key_of rs) (put_all rs m) ≡ ok (map f rs)
  unfolding values_of
  values_of-put_all [] m h = refl
  values_of-put_all (r ∷ rs) m h =
      let m' = insert (key_of r) (f r) m in
      rw (lookup-put_all (key_of r) rs m' h.1 ∙ lookup-insert_self (key_of r) (f r) m, values_of)
        (rw (values_of-put_all rs m' h.2, values_of) refl)

fields-add_results :
    (rs : List EncodingResult) (g : Gathered)
    → ((add_results rs g).encoded_blob_by_key
        ≡ put_all (λ r. r.blob_commitments) rs g.encoded_blob_by_key)
      × ((add_results rs g).blob_header_by_key ≡ put_all header_of rs g.blob_header_by_key)
      × ((add_results rs g).metadata_by_key ≡ put_all (λ r. r.blob_metadata) rs g.metadata_by_key)
fields-add_results [] g = (refl, refl, refl)
fields-add_results (r ∷ rs) g = fields-add_results rs (add_result r g)

AreNew-nothing : (rs : List EncodingResult) → AreNew rs nothing_gathered
unfolding lookup
AreNew-nothing [] = tt
AreNew-nothing (r ∷ rs) = ((refl, refl), AreNew-nothing rs)

-- The batch of results that each have slices and a key of their own: its blobs, headers and
-- metadata are those of the results, all three in the order of the results, its root is that of
-- the headers, and there is a batch whenever there is a root.
pub make_batch_lem :
    (set_batch_root : List BlobHeader → Result Error Bytes) (rs : List EncodingResult)
    → AreSeparate rs
    → make_batch set_batch_root rs ≡ (do
      root ← set_batch_root (map header_of rs)
      ok (record {
        encoded_blobs = map (λ r. r.blob_commitments) rs;
        blob_metadata = map (λ r. r.blob_metadata) rs;
        blob_headers = map header_of rs;
        batch_root = root;
        tx_hash = [];
      }))
unfolding make_batch batch_of
make_batch_lem set_batch_root rs h =
    let g = nothing_gathered in
    let full = add_results rs g in
    let (blobs, headers, metadata) = fields-add_results rs g in
    let keys = blob_keys-add_results rs g in
    let room : ltb (length full.metadata_by_key) (length full.blob_keys) ≡ false = ground (
      arith,
      length-add_results rs g h (AreNew-nothing rs),
      ap length keys,
      length-map key_of rs,
    ) in
    let listed =
      (ap (λ k. values_of k full.encoded_blob_by_key) keys
        ∙ ap (values_of (map key_of rs)) blobs
        ∙ values_of-put_all (λ r. r.blob_commitments) rs [] h) in
    let topped =
      (ap (λ k. values_of k full.blob_header_by_key) keys
        ∙ ap (values_of (map key_of rs)) headers
        ∙ values_of-put_all header_of rs [] h) in
    let described =
      (ap (λ k. values_of k full.metadata_by_key) keys
        ∙ ap (values_of (map key_of rs)) metadata
        ∙ values_of-put_all (λ r. r.blob_metadata) rs [] h) in
    rw (gather_eq rs g h (AreNew-nothing rs), make_batch)
      (rw (room, make_batch)
        (rw (listed, make_batch) (rw (topped, make_batch) (rw (described, make_batch) refl))))
