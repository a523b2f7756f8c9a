-- ===== src/Older/Functions.antt =====
-- The functions that the macros of docker/kubeshare-gemini-scheduler/hook.cpp generate, with the function
-- of the driver that each looks up at its first call, beside those of src/hook.cpp.
use fa_st_manager.Common.{Option, some, Name, if◌then◌else◌, ◌>>=◌, ◌≡◌, refl, ap, ◌∙◌, sym}
use fa_st_manager.Double.{Double}
use fa_st_manager.Hook.Functions
use fa_st_manager.Hook.Functions.{DriverFunction, first_found, plain_name, real_call, real_name}
use fa_st_manager.Hook.Intercept
use fa_st_manager.Hook.Intercept.{Driver, is_success}
use fa_st_manager.Hook.State.{CuResult, Hook, Peer}
use fa_st_manager.Hook.Symbols
use fa_st_manager.Hook.Symbols.{DriverCall, HookSymbol, symbol_index}
use fa_st_manager.Hook.Tokens.{Readings}
use fa_st_manager.Older.Agreement.{Apart, view, viewed}
use fa_st_manager.Older.Calls.{IsShared, intercept_agrees}
use fa_st_manager.Older.Intercept.{counted, intercept, post_hook, pre_hook}
use fa_st_manager.Older.State.{Older}
use fa_st_manager.Older.Symbols.{exported_symbol}
use fa_st_manager.Older.Tokens.{Guard}

module _ {ℓ κ} {W : Type ℓ} {S : Type κ} ⦃d : Double W⦄ (peer : Peer S) where
  unfoldable pub generated :
      Option DriverFunction
      → HookSymbol
      → DriverCall
      → Readings W
      → Guard
      → Older W S
      → Option (CuResult × Older W S)
  unfolding pre_hook post_hook symbol_index
  generated found symbol call t u k =
      pre_hook peer symbol call t u (counted peer symbol k) >>= λ before.
      (if is_success before.0
        then (found >>= λ f.
            (let v = f call in
              if is_success v.result
              then post_hook peer symbol call v t before.1
              else some (v.result, before.1)))
        else some before)

  module _ (versioned : Name → Name) (next : Name → Option DriverFunction) where
    -- `static` is what an earlier call has left in `real_func`.
    unfoldable pub exported_function :
        Option (Option DriverFunction)
        → DriverCall
        → Readings W
        → Guard
        → Older W S
        → Option (CuResult × Older W S)
    unfolding generated plain_name exported_symbol
    exported_function static call t u k =
        generated (first_found static (next (versioned (plain_name call)))) (exported_symbol call)
          call t u k

  generated-intercept :
      (f : DriverFunction) (symbol : HookSymbol) (call : DriverCall) (t : Readings W) (u : Guard)
      (k : Older W S)
      → generated (some f) symbol call t u k ≡ intercept peer symbol call (f call) t u k
  unfolding generated intercept
  generated-intercept f symbol call t u k = refl

  newer_generated-intercept :
      (f : DriverFunction) (symbol : HookSymbol) (call : DriverCall) (t : Readings W) (k : Hook W S)
      → Functions.generated peer (some f) symbol call t k
        ≡ Intercept.intercept peer symbol call (f (real_call call)) t k
  unfolding Functions.generated Intercept.intercept
  newer_generated-intercept f symbol call t k = refl

  -- A function of the older hook library under its own name does what that of the newer one does, with
  -- the same hooks and results, and with the same counts if CU_HOOK_DEBUG begins with 1 and none
  -- otherwise, while the newer one always counts; whatever earlier calls have left in `real_func`: for copies,
  -- synchronisation, allocations that are not managed, mipmapped arrays, and frees of a pointer that is
  -- unknown or has one entry in the newer one's list. Both find a function of the driver, and what the
  -- two do with the call is the same.
  pub functions_agree :
      (versioned : Name → Name) (next : Name → Option DriverFunction)
      (static static' : Option (Option DriverFunction)) (start : Apart) (call : DriverCall)
      (t : Readings W) (u : Guard) (k : Hook W S) (f g : DriverFunction)
      → IsShared call k
      → first_found static (next (versioned (plain_name call))) ≡ some f
      → Functions.found_for versioned next static' call ≡ some g
      → f call ≡ g (real_call call)
      → exported_function versioned next static call t u (view start k)
        ≡ viewed start (Functions.exported_function peer versioned next static' call t k)
  unfolding exported_function Functions.exported_function
  functions_agree versioned next static static' start call t u k f g ok older newer same =
      ap (λ o. generated o (exported_symbol call) call t u (view start k)) older
      ∙ generated-intercept f (exported_symbol call) call t u (view start k)
      ∙ ap (λ (v : Driver). intercept peer (exported_symbol call) call v t u (view start k)) same
      ∙ intercept_agrees peer start call (g (real_call call)) t u k ok
      ∙ ap (viewed start) (
          sym (newer_generated-intercept g (Symbols.exported_symbol call) call t k)
          ∙ ap (λ o. Functions.generated peer o (Symbols.exported_symbol call) call t k)
              (sym newer))
