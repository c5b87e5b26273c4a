-- ===== src/Redis/Lock/Keys.antt =====
-- The keys of src/core/redis/services/lock.service.ts, and where they collide.
use Prim.Native.String.{count}
use text.Mathlib.TextLemmas.{length-append}
use nest_fastify_boilerplate.Prelude.{
  ◌+◌, String, ◌≡◌, ◌≢◌, sym, ap, ◌∙◌, ◌<>◌, <>_cancel, <>_assoc, arith,
}

abbrev pub lock_key : String → String
lock_key key = "lock:" <> key

abbrev pub fence_key : String → String
fence_key key = "lock:fence:" <> key

pub fence_key-eq-lock_key : (key : String) → fence_key key ≡ lock_key ("fence:" <> key)
fence_key-eq-lock_key key = <>_assoc "lock:" "fence:" key

pub fence_key-ne-lock_key : (key : String) → fence_key key ≢ lock_key key
fence_key-ne-lock_key key h =
    let same : "fence:" <> key ≡ key =
      <>_cancel "lock:" ("fence:" <> key) key (sym (fence_key-eq-lock_key key) ∙ h) in
    let counts : count key ≡ 6 + count key = sym (ap count same) ∙ length-append "fence:" key in
    omega arith

pub lock_key_injective : (a b : String) → lock_key a ≡ lock_key b → a ≡ b
lock_key_injective a b h = <>_cancel "lock:" a b h
