-- ===== src/Gpu/Scratch/Room.antt =====
-- What the code may rely on when a scratch buffer was asked for.
use fortai.Prelude.{ℕ, ◌*◌, inl, refl, Bool, false, not, List, [], ◌∷◌, if◌then◌else◌, if_rule}
use fortai.Gpu.Scratch.{
  Outcome, grow_replacing, Views, ensure_attention_view, ensure_attention_fattn, grow, grow_checked,
  Scratch, no_scratch, padded, ensure_host_matvec, activation_blocks, ensure_device_matvec,
  ensure_aux, ensure_batched_activation, ensure_mmq_fixup, ensure_tokens, ensure_download,
}
use fortai.Gpu.Scratch.Grow.{
  IsCounted, IsGranted, IsGrantedOrNull, grow_lem, grow_checked_lem, IsFilled, IsGrantedOrEmpty,
  carry_over, carry_or_null, both_grow, one_grows,
}

abbrev AreFilled : Views → Type 0
AreFilled w =
    IsFilled w.key.size w.key.bytes
    × IsFilled w.value.size w.value.bytes
    × IsFilled w.mask.size w.mask.bytes
    × IsFilled w.meta.size w.meta.bytes

-- The buffers of a context, each with the right count.
abbrev IsValid : Scratch → Type 0
IsValid s =
    IsCounted s.raw.size s.raw.bytes
    × IsCounted s.activation.size s.activation.bytes
    × IsCounted s.output.size s.output.bytes
    × IsCounted s.aux.size s.aux.bytes
    × IsCounted s.batched_activation.size s.batched_activation.bytes
    × IsCounted s.mmq_fixup.size s.mmq_fixup.bytes
    × IsCounted s.mmq_tiles.size s.mmq_tiles.bytes
    × IsCounted s.tokens.size s.tokens.bytes
    × IsCounted s.download.size s.download.bytes
    × AreFilled s.views

-- A call for scratch, with what CUDA returns.
pub data Request : Type 0 where
  host_matvec : Outcome → Outcome → Outcome → ℕ → ℕ → Request
  mmq_fixup attention_view attention_fattn : Outcome → Outcome → ℕ → ℕ → Request
  device_matvec aux batched_activation tokens download : Outcome → ℕ → Request

unfoldable pub perform : Scratch → Request → Scratch × Bool
perform s (host_matvec o p q activation_bytes output_bytes) =
    ensure_host_matvec o p q s activation_bytes output_bytes
perform s (mmq_fixup o p partial_bytes tile_bytes) = ensure_mmq_fixup o p s partial_bytes tile_bytes
perform s (attention_view o p key_bytes value_bytes) =
    let r = ensure_attention_view o p s.views key_bytes value_bytes in
    (record s { views = r.0 }, r.1)
perform s (attention_fattn o p mask_bytes meta_bytes) =
    let r = ensure_attention_fattn o p s.views mask_bytes meta_bytes in
    (record s { views = r.0 }, r.1)
perform s (device_matvec o elements) = ensure_device_matvec o s elements
perform s (aux o bytes) = ensure_aux o s bytes
perform s (batched_activation o bytes) = ensure_batched_activation o s bytes
perform s (tokens o bytes) = ensure_tokens o s bytes
perform s (download o bytes) = ensure_download o s bytes

-- What a request gives: the buffers that it names have room, or it fails.
abbrev pub IsServed : Request → Scratch × Bool → Type 0
IsServed (host_matvec o p q activation_bytes output_bytes) (s, ok) =
    IsGrantedOrNull s.raw activation_bytes ok
    × IsGrantedOrNull s.activation (padded activation_bytes) ok
    × IsGrantedOrNull s.output output_bytes ok
IsServed (mmq_fixup o p partial_bytes tile_bytes) (s, ok) =
    IsGranted s.mmq_fixup partial_bytes ok × IsGranted s.mmq_tiles tile_bytes ok
IsServed (attention_view o p key_bytes value_bytes) (s, ok) =
    IsGrantedOrEmpty s.views.key key_bytes ok × IsGrantedOrEmpty s.views.value value_bytes ok
IsServed (attention_fattn o p mask_bytes meta_bytes) (s, ok) =
    IsGrantedOrEmpty s.views.mask mask_bytes ok × IsGrantedOrEmpty s.views.meta meta_bytes ok
IsServed (device_matvec o elements) (s, ok) =
    IsGranted s.activation (activation_blocks elements * 36) ok
IsServed (aux o bytes) (s, ok) = IsGrantedOrNull s.aux bytes ok
IsServed (batched_activation o bytes) (s, ok) = IsGranted s.batched_activation bytes ok
IsServed (tokens o bytes) (s, ok) = IsGranted s.tokens bytes ok
IsServed (download o bytes) (s, ok) = IsGranted s.download bytes ok

-- what holds of each request, one after the other
abbrev pub AllServed : List Request → Scratch → Type 0
AllServed [] s = Unit {0}
AllServed (r ∷ rs) s = IsServed r (perform s r) × AllServed rs (perform s r).0

host_matvec-IsServed :
    (o p q : Outcome) (s : Scratch) (activation_bytes output_bytes : ℕ)
    → IsValid s
    → IsValid (ensure_host_matvec o p q s activation_bytes output_bytes).0
      × IsServed
          (host_matvec o p q activation_bytes output_bytes)
          (ensure_host_matvec o p q s activation_bytes output_bytes)
unfolding ensure_host_matvec
host_matvec-IsServed o p q s a b v =
    let raw = grow o s.raw a in
    let activation = grow p s.activation (padded a) in
    let output = grow q s.output b in
    let (raw_counted, raw_granted) = grow_lem o s.raw.size s.raw.bytes a v.0 in
    let (activation_counted, activation_granted) =
      grow_lem p s.activation.size s.activation.bytes (padded a) v.1 in
    let (output_counted, output_granted) = grow_lem q s.output.size s.output.bytes b v.2 in
    let Served : Scratch × Bool → Type 0 = λ r. IsValid r.0 × IsServed (host_matvec o p q a b) r in
    let served : Scratch × Bool =
      (record s { raw = raw.0; activation = activation.0; output = output.0 }, output.1) in
    let no_activation : Scratch × Bool =
      (record s { raw = raw.0; activation = activation.0 }, false) in
    if_rule Served (not raw.1) (record s { raw = raw.0 }, false)
      (if not activation.1 then no_activation else served)
      (λ e. (
        (raw_counted, v.1, v.2, v.3, v.4, v.5, v.6, v.7, v.8, v.9),
        (inl (inl refl), inl (inl refl), inl (inl refl)),
      ))
      λ raw_ok.
        if_rule Served (not activation.1) no_activation served
          (λ e. (
            (raw_counted, activation_counted, v.2, v.3, v.4, v.5, v.6, v.7, v.8, v.9),
            (inl (inl refl), inl (inl refl), inl (inl refl)),
          ))
          λ activation_ok. (
            (raw_counted, activation_counted, output_counted, v.3, v.4, v.5, v.6, v.7, v.8, v.9),
            (
              carry_or_null raw.0 a raw.1 output.1 raw_ok raw_granted,
              carry_or_null activation.0 (padded a) activation.1 output.1 activation_ok
                  activation_granted,
              output_granted,
            ),
          )

mmq_fixup-IsServed :
    (o p : Outcome) (s : Scratch) (partial_bytes tile_bytes : ℕ)
    → IsValid s
    → IsValid (ensure_mmq_fixup o p s partial_bytes tile_bytes).0
      × IsServed
          (mmq_fixup o p partial_bytes tile_bytes)
          (ensure_mmq_fixup o p s partial_bytes tile_bytes)
unfolding ensure_mmq_fixup
mmq_fixup-IsServed o p s a b v =
    let fixup = grow_checked o s.mmq_fixup a in
    let tiles = grow_checked p s.mmq_tiles b in
    let (fixup_counted, fixup_granted) =
      grow_checked_lem o s.mmq_fixup.size s.mmq_fixup.bytes a v.5 in
    let (tiles_counted, tiles_granted) =
      grow_checked_lem p s.mmq_tiles.size s.mmq_tiles.bytes b v.6 in
    if_rule (λ (r : Scratch × Bool). IsValid r.0 × IsServed (mmq_fixup o p a b) r) (not fixup.1)
      (record s { mmq_fixup = fixup.0 }, false)
      (record s { mmq_fixup = fixup.0; mmq_tiles = tiles.0 }, tiles.1)
      (λ e. ((v.0, v.1, v.2, v.3, v.4, fixup_counted, v.6, v.7, v.8, v.9), (inl refl, inl refl)))
      λ fixup_ok. (
        (v.0, v.1, v.2, v.3, v.4, fixup_counted, tiles_counted, v.7, v.8, v.9),
        (carry_over fixup.0 a fixup.1 tiles.1 fixup_ok fixup_granted, tiles_granted),
      )

attention_view-IsServed :
    (o p : Outcome) (s : Scratch) (a b : ℕ)
    → IsValid s
    → IsValid (perform s (attention_view o p a b)).0
      × IsServed (attention_view o p a b) (perform s (attention_view o p a b))
unfolding perform ensure_attention_view
attention_view-IsServed o p s a b v =
    let w = s.views in
    let f = v.9 in
    let key = grow_replacing o w.key a in
    let value = grow_replacing p w.value b in
    if_rule
      (λ (r : Views × Bool).
        IsValid (record s { views = r.0 })
        × IsServed (attention_view o p a b) (record s { views = r.0 }, r.1))
      (not key.1) (record w { key = key.0 }, false)
      (record w { key = key.0; value = value.0 }, value.1)
      (λ e.
        let (k, l, g, h) = one_grows o p w.key w.value a b f.0 f.1 in
        ((v.0, v.1, v.2, v.3, v.4, v.5, v.6, v.7, v.8, (k, l, f.2, f.3)), (g, h)))
      λ e.
        let (k, l, g, h) = both_grow o p w.key w.value a b f.0 f.1 e in
        ((v.0, v.1, v.2, v.3, v.4, v.5, v.6, v.7, v.8, (k, l, f.2, f.3)), (g, h))

attention_fattn-IsServed :
    (o p : Outcome) (s : Scratch) (a b : ℕ)
    → IsValid s
    → IsValid (perform s (attention_fattn o p a b)).0
      × IsServed (attention_fattn o p a b) (perform s (attention_fattn o p a b))
unfolding perform ensure_attention_fattn
attention_fattn-IsServed o p s a b v =
    let w = s.views in
    let f = v.9 in
    let mask = grow_replacing o w.mask a in
    let meta = grow_replacing p w.meta b in
    if_rule
      (λ (r : Views × Bool).
        IsValid (record s { views = r.0 })
        × IsServed (attention_fattn o p a b) (record s { views = r.0 }, r.1))
      (not mask.1) (record w { mask = mask.0 }, false)
      (record w { mask = mask.0; meta = meta.0 }, meta.1)
      (λ e.
        let (k, l, g, h) = one_grows o p w.mask w.meta a b f.2 f.3 in
        ((v.0, v.1, v.2, v.3, v.4, v.5, v.6, v.7, v.8, (f.0, f.1, k, l)), (g, h)))
      λ e.
        let (k, l, g, h) = both_grow o p w.mask w.meta a b f.2 f.3 e in
        ((v.0, v.1, v.2, v.3, v.4, v.5, v.6, v.7, v.8, (f.0, f.1, k, l)), (g, h))

perform-IsServed :
    (s : Scratch) (r : Request) → IsValid s → IsValid (perform s r).0 × IsServed r (perform s r)
unfolding perform ensure_device_matvec ensure_aux ensure_batched_activation ensure_tokens
    ensure_download
perform-IsServed s (host_matvec o p q a b) v = host_matvec-IsServed o p q s a b v
perform-IsServed s (mmq_fixup o p a b) v = mmq_fixup-IsServed o p s a b v
perform-IsServed s (attention_view o p a b) v = attention_view-IsServed o p s a b v
perform-IsServed s (attention_fattn o p a b) v = attention_fattn-IsServed o p s a b v
perform-IsServed s (device_matvec o elements) v =
    let (counted, granted) =
      grow_checked_lem o s.activation.size s.activation.bytes (activation_blocks elements * 36)
        v.1 in
    ((v.0, counted, v.2, v.3, v.4, v.5, v.6, v.7, v.8, v.9), granted)
perform-IsServed s (aux o bytes) v =
    let (counted, granted) = grow_lem o s.aux.size s.aux.bytes bytes v.3 in
    ((v.0, v.1, v.2, counted, v.4, v.5, v.6, v.7, v.8, v.9), granted)
perform-IsServed s (batched_activation o bytes) v =
    let (counted, granted) =
      grow_checked_lem o s.batched_activation.size s.batched_activation.bytes bytes v.4 in
    ((v.0, v.1, v.2, v.3, counted, v.5, v.6, v.7, v.8, v.9), granted)
perform-IsServed s (tokens o bytes) v =
    let (counted, granted) = grow_checked_lem o s.tokens.size s.tokens.bytes bytes v.7 in
    ((v.0, v.1, v.2, v.3, v.4, v.5, v.6, counted, v.8, v.9), granted)
perform-IsServed s (download o bytes) v =
    let (counted, granted) = grow_checked_lem o s.download.size s.download.bytes bytes v.8 in
    ((v.0, v.1, v.2, v.3, v.4, v.5, v.6, v.7, counted, v.9), granted)

served_from : (rs : List Request) (s : Scratch) → IsValid s → AllServed rs s
served_from [] s v = tt
served_from (r ∷ rs) s v =
    let (valid, served) = perform-IsServed s r v in (served, served_from rs (perform s r).0 valid)

-- In a new context, whatever is asked for and whatever CUDA returns: each request for scratch fails,
-- or the buffers that it names have at least the bytes that it wants, if it wants any. The exceptions are the buffers
-- of the host products and the auxiliary one: for these a request may succeed while the pointer is
-- NULL.
pub requests-AllServed : (rs : List Request) → AllServed rs no_scratch
requests-AllServed rs =
    served_from rs no_scratch (tt, tt, tt, tt, tt, tt, tt, tt, tt, (refl, refl, refl, refl))
