-- ===== src/Command.antt =====
-- cmd/controller/main.go, and the constructors of the controllers: pkg/reconciler/crds/controller.go and
-- pkg/reconciler/functions/controller.go
pub mod Main
pub mod Assembly
pub mod Controllers
pub mod Startup
pub mod Program
pub mod Restart
