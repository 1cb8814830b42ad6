-- ===== src/Client.antt =====
-- pkg/client: the generated code through which the controllers reach the API server and the
-- informer's store.
pub mod Result
pub mod Objects
pub mod Clientset
pub mod Lister
pub mod Informers
pub mod Fake
pub mod Typed
pub mod Scheme
